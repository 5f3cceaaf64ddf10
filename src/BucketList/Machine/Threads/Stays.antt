-- ===== src/BucketList/Machine/Threads/Stays.antt =====
-- What a thread on the list of src/BucketList.h knows stays so while another thread makes a step.
use concurrent_hash_sets.Base.{
  ℕ, ◌≤◌, ◌≡◌, ◌≢◌, ◌⊎◌, inl, inr, refl, ◌∙◌, Bool, true, false, length, arith,
}
use concurrent_hash_sets.Element.{Element}
use concurrent_hash_sets.MarkableReference.{Address}
use concurrent_hash_sets.History.{Op, add, remove, contains}
use concurrent_hash_sets.BucketList.Heap.{null, Target}
use concurrent_hash_sets.BucketList.Order.{Ordered, matches-same}
use concurrent_hash_sets.BucketList.World.{
  World, Later, sought, Moment, now, Moment-kept, Effected-kept, matches-kept, Clear-kept,
  matches-elem,
}
use concurrent_hash_sets.BucketList.World.Ahead.{Ahead-kept}
use concurrent_hash_sets.BucketList.Machine.{
  Job, adding, removing, placing, Pc, idle, find_head, find_next, unlinking, linking, found,
  marking, dropping, looking, checking, returning, placed, target,
}
use concurrent_hash_sets.BucketList.Machine.Threads.{
  job_node, own_node, Answered, Start, Before, Private, Saw, Marking, Checking, Knows,
}

module _ {T : Type 0} ⦃e : Element T⦄ {mine : Address} {w v : World T}
    (o : Ordered w.on w.rank w.heap) (p : Ordered v.on v.rank v.heap) (l : Later mine w v) where
  key-kept : (a : Address) → w.on a ≡ true → v.heap.key a ≡ w.heap.key a
  key-kept a q = l.same_key a (o.fresh a q)

  pub Start-kept : {t : Target T} {head : Address} → Start w t head → Start v t head
  Start-kept {t} {head} s =
      let k = key-kept head s.linked_in in
      record { linked_in = l.on_kept head s.linked_in; even = rw k s.even; below = rw k s.below }

  pub Before-kept : {t : Target T} {pred : Address} → Before w t pred → Before v t pred
  Before-kept {t} {pred} b =
      let k = key-kept pred b.linked_in in
      record {
        linked_in = l.on_kept pred b.linked_in;
        low = rw k b.low;
        differs = matches-kept o l pred t b.linked_in ∙ b.differs;
        clear = Clear-kept o l t pred b.linked_in b.clear;
      }

  pub Private-kept :
      {t : Target T} {node : Address} → node ≢ mine → Private w t node → Private v t node
  Private-kept {t} {node} d q = record {
    off = (l.others node d q.off q.made).0;
    made = omega (arith, q.made, l.made);
    same =
        matches-same node node t v.heap w.heap (l.same_key node q.made) (l.same_elem node q.made)
        ∙ q.same;
  }

  Saw-kept :
      (k : ℕ) (job : Job T) (curr : Address)
      → w.on curr ≡ true
      → Saw w k job curr
      → Saw v k job curr
  Saw-kept k (adding x node) curr q s = tt
  Saw-kept k (removing x) curr q s = λ h. Moment-kept l (s (rw (key-kept curr q) at h))
  Saw-kept k (placing index node) curr q s = tt

  Answered-kept :
      (i k : ℕ) (op : Op T) (b : Bool) → Answered i k op b w.events → Answered i k op b v.events
  unfolding Answered
  Answered-kept i k (add x) true a = Effected-kept l a
  Answered-kept i k (add x) false a = Moment-kept l a
  Answered-kept i k (remove x) true a = Effected-kept l a
  Answered-kept i k (remove x) false a = Moment-kept l a
  Answered-kept i k (contains x) b a = Moment-kept l a

  Marking-kept :
      {x : T} {head pred curr : Address} → Marking w x head pred curr → Marking v x head pred curr
  Marking-kept {x} {head} {pred} {curr} q = record {
    begins = Start-kept q.begins;
    pred_before = Before-kept q.pred_before;
    curr_on = l.on_kept curr q.curr_on;
    same = matches-kept o l curr (sought x) q.curr_on ∙ q.same;
  }

  pub Knows-kept :
      (i k : ℕ)
      → k ≤ length v.events
      → (c : Pc T) → (own_node c ≢ null → own_node c ≢ mine)
      → Knows w i k c
      → Knows v i k c
  unfolding Knows
  Knows-kept i k le idle d q = tt
  Knows-kept i k le (find_head job head) d q = (Start-kept q.0, λ n. Private-kept (d n) (q.1 n))
  Knows-kept i k le (find_next job head pred curr) d q = record {
    begins = Start-kept q.begins;
    owns = λ n. Private-kept (d n) (q.owns n);
    pred_before = Before-kept q.pred_before;
    curr_on = l.on_kept curr q.curr_on;
    curr_clear = Clear-kept o l (target job) curr q.curr_on q.curr_clear;
    saw = Saw-kept k job curr q.curr_on q.saw;
  }
  Knows-kept i k le (unlinking job head pred curr succ) d q =
      let (dead, same) = l.mark_kept curr q.curr_on q.dead in
      record {
        begins = Start-kept q.begins;
        owns = λ n. Private-kept (d n) (q.owns n);
        pred_before = Before-kept q.pred_before;
        curr_on = l.on_kept curr q.curr_on;
        dead = dead;
        next_is = same ∙ q.next_is;
      }
  Knows-kept i k le (linking job head pred curr) d q =
      let (off, next, live) = l.others (job_node job) (d q.made) q.own.off q.own.made in
      record {
        begins = Start-kept q.begins;
        job_inserts = q.job_inserts;
        made = q.made;
        own = Private-kept (d q.made) q.own;
        next_is = next ∙ q.next_is;
        live = live ∙ q.live;
        pred_before = Before-kept q.pred_before;
        curr_on = l.on_kept curr q.curr_on;
        above = rw (key-kept curr q.curr_on) q.above;
      }
  Knows-kept i k le (found x head pred curr) d q = Marking-kept q
  Knows-kept i k le (marking x head pred curr succ) d q = Marking-kept q
  Knows-kept i k le (dropping x pred curr succ) d q =
      let (dead, same) = l.mark_kept curr q.curr_on q.dead in
      record {
        pred_before = Before-kept q.pred_before;
        curr_on = l.on_kept curr q.curr_on;
        dead = dead;
        next_is = same ∙ q.next_is;
        effected = Effected-kept l q.effected;
      }
  Knows-kept i k le (looking x curr) d q = record {
    curr_on = l.on_kept curr q.curr_on;
    low = rw (key-kept curr q.curr_on) q.low;
    differs = matches-kept o l curr (sought x) q.curr_on ∙ q.differs;
    either = elim q.either [
      | inl m ↦ inl (Moment-kept l m)
      | inr a ↦ elim (Ahead-kept o p l x curr q.curr_on a) [
        | inl b ↦ inr b
        | inr gone ↦ inl (now le gone)
      ]
    ];
  }
  Knows-kept i k le (checking x curr) d q = elim q.either [
    | inl m ↦ checked (inl (Moment-kept l m))
    | inr live ↦ still_live live (v.heap.marked curr) refl
  ]
    where
      checked : Moment k x false v.events ⊎ (v.heap.marked curr ≡ false) → Checking v k x curr
      checked r = record {
        curr_on = l.on_kept curr q.curr_on;
        same = matches-kept o l curr (sought x) q.curr_on ∙ q.same;
        either = r;
      }

      still_live :
          w.heap.marked curr ≡ false → (b : Bool) → v.heap.marked curr ≡ b → Checking v k x curr
      still_live live true m =
          let elem_v : v.heap.elem curr ≡ x =
            l.same_elem curr (o.fresh curr q.curr_on) ∙ matches-elem curr x w.heap q.same in
          checked (inl (now le (rw elem_v at (l.lost curr q.curr_on live m))))
      still_live live false m = checked (inr m)
  Knows-kept i k le (returning op b) d q = Answered-kept i k op b q
  Knows-kept i k le (placed index a) d (q, key) = (l.on_kept a q, key-kept a q ∙ key)
