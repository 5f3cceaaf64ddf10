-- ===== src/BucketList/Machine/Steps/Window.antt =====
-- What a call of src/BucketList.h does with the window that `Find` returns.
use concurrent_hash_sets.Base.{
  ℕ, ◌≤◌, ◌<◌, ◌≡◌, ◌≢◌, ◌⊎◌, inl, inr, refl, ◌∙◌, Bool, true, false, ◌==◌, ==_iff, ==→ne, arith,
  Bool-cases,
}
use concurrent_hash_sets.Element.{Element}
use concurrent_hash_sets.MarkableReference.{Address}
use concurrent_hash_sets.History.{add, remove}
use concurrent_hash_sets.BucketList.Keys.{make_ordinary_key, make_sentinel_key}
use concurrent_hash_sets.BucketList.Heap.{Heap, null, matches, at_or_past, new_node, store_next}
use concurrent_hash_sets.BucketList.Order.{matches-key, past, equal_self, matches-same}
use concurrent_hash_sets.BucketList.World.{World, now}
use concurrent_hash_sets.BucketList.World.Changes.{Aside, at_heap, Change-aside}
use concurrent_hash_sets.BucketList.Machine.{
  Job, adding, removing, placing, find_next, linking, found, returning, placed, System, goto,
  with_heap, target, at_window,
}
use concurrent_hash_sets.BucketList.Machine.Threads.{job_node, inserts, Answered, Finding, Knows}
use concurrent_hash_sets.BucketList.Machine.Threads.Stays.{Start-kept, Before-kept}
use concurrent_hash_sets.BucketList.Machine.Invariant.{Inv, here}
use concurrent_hash_sets.BucketList.Machine.Steps.{known, go_at, go_on}

module _ {T : Type 0} ⦃e : Element T⦄ where
  new_node-Aside :
      {w : World T} (x : T) (k : ℕ) (next : Address) → Aside null w (new_node x k next w.heap)
  unfolding new_node
  new_node-Aside x k next = record {
    key_on = λ a q. ground arith;
    elem_on = λ a q. ground arith;
    ref_on = λ a q d. ground arith;
    marked_on = λ a q d. ground arith;
    made = omega arith;
    retired_same = refl;
  }

  store_next-Aside :
      {w : World T} (node next : Address) → Aside node w (store_next node next false w.heap)
  unfolding store_next
  store_next-Aside node next = record {
    key_on = λ a q. refl;
    elem_on = λ a q. refl;
    ref_on = λ a q d. ground arith;
    marked_on = λ a q d. ground arith;
    made = omega arith;
    retired_same = refl;
  }

  module _ {s : System T} (inv : Inv s) (i : ℕ) (job : Job T) (head pred curr : Address)
      (at : s.pc i ≡ find_next job head pred curr) (live : s.heap.marked curr ≡ false) where
    knowing : Finding (here inv) (s.began i) job head pred curr
    unfolding Knows
    knowing = known inv i _ at

    -- the new node is ready
    ready :
        (k : Heap T) (j : Job T)
        → Aside (job_node job) (here inv) k
        → inv.on (job_node job) ≡ false
        → target j ≡ target job
        → inserts j ≡ true
        → job_node j ≢ null
        → (job_node j ≡ job_node job) ⊎ (s.heap.allocated ≤ job_node j)
        → inv.on (job_node j) ≡ false
        → job_node j < k.allocated
        → matches (job_node j) (target job) k ≡ true
        → k.ref (job_node j) ≡ curr
        → k.marked (job_node j) ≡ false
        → matches curr (target job) s.heap ≡ false
        → at_or_past curr (target job) s.heap ≡ true
        → Inv (goto i (linking j head pred curr) (with_heap k s))
    unfolding Knows
    ready k j aside off_mine same ins nn own off made match next unmarked differs over =
        let c = Change-aside inv.order inv.agrees off_mine aside in
        let q = knowing in
        let above : (target job).key < k.key curr =
          rw (aside.key_on curr (inv.order.fresh curr q.curr_on))
            (past curr (target job) s.heap over differs) in
        go_at inv i _ at (at_heap k (here inv)) (linking j head pred curr) c
          record {
            begins = rw same (Start-kept inv.order c.order c.later q.begins);
            job_inserts = ins;
            made = nn;
            own = rw same record { off = off; made = made; same = match };
            next_is = next;
            live = unmarked;
            pred_before = rw same (Before-kept inv.order c.order c.later q.pred_before);
            curr_on = q.curr_on;
            above = rw same above;
          }
          (inr own) made

    fresh_off : inv.on s.heap.allocated ≡ false
    fresh_off = elim (Bool-cases (inv.on s.heap.allocated)) [
      | inl q ↦ absurd (omega (arith, inv.order.fresh _ q))
      | inr q ↦ q
    ]

    not_null : s.heap.allocated ≢ null
    not_null q = omega (arith, inv.order.fresh _ inv.order.root_on)

    -- the node of an earlier try, or a new one
    ready_again :
        job_node job ≢ null
        → inserts job ≡ true
        → matches curr (target job) s.heap ≡ false
        → at_or_past curr (target job) s.heap ≡ true
        → Inv (
            goto i
              (linking job head pred curr)
              (with_heap (store_next (job_node job) curr false s.heap) s))
    unfolding store_next
    ready_again nn ins differs over =
        let own = knowing.owns nn in
        ready (store_next (job_node job) curr false s.heap) job
          (store_next-Aside (job_node job) curr) own.off refl ins nn (inl refl) own.off own.made
          (matches-same (job_node job) (job_node job) (target job) _ s.heap refl refl ∙ own.same)
          (ground arith) (ground arith) differs over

    ready_new :
        (x : T) (k : ℕ) (j : Job T)
        → job_node job ≡ null
        → target j ≡ target job
        → inserts j ≡ true
        → job_node j ≡ s.heap.allocated
        → matches (job_node j) (target job) (new_node x k curr s.heap) ≡ true
        → matches curr (target job) s.heap ≡ false
        → at_or_past curr (target job) s.heap ≡ true
        → Inv (goto i (linking j head pred curr) (with_heap (new_node x k curr s.heap) s))
    unfolding new_node
    ready_new x k j none same ins new match differs over =
        let mine : inv.on (job_node job) ≡ false = rw none inv.order.not_null in
        ready (new_node x k curr s.heap) j (rw none (new_node-Aside x k curr)) mine same ins
          (rw new not_null) (inr (omega (arith, new))) (rw new fresh_off) (rw new (omega arith))
          match (ground (arith, new)) (ground (arith, new)) differs over

  new_matches :
      (x : T) (h : Heap T) (next : Address)
      → matches h.allocated (target (adding x null)) (new_node x (make_ordinary_key x) next h)
        ≡ true
  unfolding matches new_node target
  new_matches x h next = ground (arith, equal_self x)

  new_matches-sentinel :
      (x : T) (index : ℕ) (h : Heap T) (next : Address)
      → matches h.allocated
          (target (placing index null))
          (new_node x (make_sentinel_key index) next h)
        ≡ true
  unfolding matches new_node target
  new_matches-sentinel x index h next = ground arith

  module _ {s : System T} (inv : Inv s) (i : ℕ) (blank : T) where
    pub window-Inv :
        (job : Job T) (head pred curr : Address)
        → s.pc i ≡ find_next job head pred curr
        → s.heap.marked curr ≡ false
        → at_or_past curr (target job) s.heap ≡ true
        → (b : Bool) → matches curr (target job) s.heap ≡ b
        → Inv (at_window blank i job head pred curr b s)
    unfolding at_window target Knows Answered
    window-Inv (adding x node) head pred curr at live over true m =
        let q = knowing inv i _ head pred curr at live in
        go_on inv i _ at (returning (add x) false)
          (now (inv.begun i) (inv.agrees.absent x curr q.curr_on live m)) (inl refl)
    window-Inv (adding x node) head pred curr at live over false m =
        elim (Bool-cases (node == null)) [
          | inl z ↦ rw z (
              ready_new inv i _ head pred curr at live x _ (adding x s.heap.allocated)
                ((==_iff node null).0 z) refl refl refl (new_matches x s.heap curr) m over)
          | inr z ↦
              rw z (ready_again inv i _ head pred curr at live (==→ne node null z) refl m over)
        ]
    window-Inv (removing x) head pred curr at live over true m =
        let q = knowing inv i _ head pred curr at live in
        go_on inv i _ at (found x head pred curr)
          record { begins = q.begins; pred_before = q.pred_before; curr_on = q.curr_on; same = m }
          (inl refl)
    window-Inv (removing x) head pred curr at live over false m =
        let q = knowing inv i _ head pred curr at live in
        go_on inv i _ at (returning (remove x) false) (q.saw (past curr _ s.heap over m)) (inl refl)
    window-Inv (placing index node) head pred curr at live over true m =
        let q = knowing inv i _ head pred curr at live in
        go_on inv i _ at (placed index curr) (q.curr_on, matches-key curr _ s.heap m) (inl refl)
    window-Inv (placing index node) head pred curr at live over false m =
        elim (Bool-cases (node == null)) [
          | inl z ↦ rw z (
              ready_new inv i _ head pred curr at live blank _ (placing index s.heap.allocated)
                ((==_iff node null).0 z) refl refl refl
                (new_matches-sentinel blank index s.heap curr) m over)
          | inr z ↦
              rw z (ready_again inv i _ head pred curr at live (==→ne node null z) refl m over)
        ]
