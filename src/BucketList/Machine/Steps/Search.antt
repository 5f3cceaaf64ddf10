-- ===== src/BucketList/Machine/Steps/Search.antt =====
-- The shared accesses of `Find` of src/BucketList.h, and the linking of a new node.
use concurrent_hash_sets.Base.{
  ℕ, ◌<◌, ◌≡◌, ◌≢◌, inl, inr, refl, sym, ◌∙◌, Bool, true, false, arith, Bool-cases,
}
use concurrent_hash_sets.Element.{Element}
use concurrent_hash_sets.MarkableReference.{Address}
use concurrent_hash_sets.History.{add}
use concurrent_hash_sets.BucketList.Keys.{tail_key}
use concurrent_hash_sets.BucketList.Keys.Order.{
  make_ordinary_key-odd, make_ordinary_key-lt, make_sentinel_key-even,
}
use concurrent_hash_sets.BucketList.Heap.{Target, at_or_past, next_is, store_next, retire}
use concurrent_hash_sets.BucketList.Order.{matches-key, matches-same, not_past}
use concurrent_hash_sets.BucketList.World.{sought, now}
use concurrent_hash_sets.BucketList.World.Changes
use concurrent_hash_sets.BucketList.World.Changes.{at_heap, Change-none, Change-unlink}
use concurrent_hash_sets.BucketList.World.Changes.Inserts.{Change-add, Change-sentinel}
use concurrent_hash_sets.BucketList.Machine.{
  Job, adding, removing, placing, find_head, find_next, unlinking, linking, returning, placed,
  System, goto, linked, target, at_next, advance,
}
use concurrent_hash_sets.BucketList.Machine.Threads.{
  job_node, Answered, Before, Owns, Knows, target-lt, Before-inner, Start-Before,
}
use concurrent_hash_sets.BucketList.Machine.Threads.Stays.{Start-kept, Before-kept}
use concurrent_hash_sets.BucketList.Machine.Invariant.{Inv, here}
use concurrent_hash_sets.BucketList.Machine.Steps.{known, own_at, go_at, go_on, next_is_sound}
use concurrent_hash_sets.BucketList.Machine.Steps.Arrive.{arrives}
use concurrent_hash_sets.BucketList.Machine.Steps.Window.{window-Inv}

module _ {T : Type 0} ⦃e : Element T⦄ {s : System T} (inv : Inv s) (i : ℕ) (blank : T) where
  pub find_head-Inv :
      (job : Job T) (head : Address)
      → s.pc i ≡ find_head job head
      → Inv (goto i (find_next job head head (s.heap.ref head)) s)
  unfolding Knows
  find_head-Inv job head at =
      let (begins, owns) = known inv i _ at in
      let b = Start-Before inv.order (target job) (target-lt job) head begins in
      go_on inv i _ at _
        (arrives inv.order inv.agrees (s.began i) (inv.begun i) job head head begins owns b
          (inv.order.sentinel head begins.linked_in begins.even))
        (inr refl)

  pub at_next-Inv :
      (job : Job T) (head pred curr : Address)
      → s.pc i ≡ find_next job head pred curr
      → (b : Bool) → s.heap.marked curr ≡ b
      → Inv (at_next blank i job head pred curr (s.heap.ref curr) b s)
  unfolding at_next Knows
  at_next-Inv job head pred curr at true m =
      let q = known inv i _ at in
      go_on inv i _ at (unlinking job head pred curr (s.heap.ref curr))
        record {
          begins = q.begins;
          owns = q.owns;
          pred_before = q.pred_before;
          curr_on = q.curr_on;
          dead = m;
          next_is = refl;
        }
        (inr refl)
  at_next-Inv job head pred curr at false m =
      let q = known inv i _ at in
      elim (Bool-cases (at_or_past curr (target job) s.heap)) [
        | inl over ↦ rw over (window-Inv inv i blank job head pred curr at m over _ refl)
        | inr under ↦
            let (low, differs) = not_past curr (target job) s.heap under in
            let b : Before (here inv) (target job) curr = record {
              linked_in = q.curr_on;
              low = low;
              differs = differs;
              clear = q.curr_clear;
            } in
            rw under (
              go_on inv i _ at (find_next job head curr (s.heap.ref curr))
                (arrives inv.order inv.agrees (s.began i) (inv.begun i) job head curr q.begins
                  q.owns b m)
                (inr refl))
      ]

  -- an unlinking by thread `i`
  pub unlink :
      (t : Target T) (pred curr succ : Address)
      → t.key < tail_key
      → Before (here inv) t pred
      → s.heap.marked curr ≡ true
      → s.heap.ref curr ≡ succ
      → next_is pred curr s.heap ≡ true
      → (mine : Address)
      → Changes.Change mine
          (here inv)
          (at_heap (retire curr (store_next pred succ false s.heap)) (here inv))
  unlink t pred curr succ lt b dead next swap mine =
      let (ref, live) = next_is_sound pred curr s.heap swap in
      rw (← next) (
        Change-unlink inv.order inv.agrees mine pred curr b.linked_in
          (Before-inner inv.order t lt pred b) live ref dead)

  pub unlinking-Inv :
      (job : Job T) (head pred curr succ : Address)
      → s.pc i ≡ unlinking job head pred curr succ
      → Inv (advance blank i (unlinking job head pred curr succ) s)
  unfolding advance Knows
  unlinking-Inv job head pred curr succ at = elim (Bool-cases (next_is pred curr s.heap)) [
    | inr failed ↦
        let q = known inv i _ at in
        rw failed (go_on inv i _ at (find_head job head) (q.begins, q.owns) (inr refl))
    | inl swap ↦
        let q = known inv i _ at in
        let c =
          unlink (target job) pred curr succ (target-lt job) q.pred_before q.dead q.next_is swap
            (job_node job) in
        let v = at_heap (retire curr (store_next pred succ false s.heap)) (here inv) in
        let begins = Start-kept inv.order c.order c.later q.begins in
        let b = Before-kept inv.order c.order c.later q.pred_before in
        let live : v.heap.marked pred ≡ false = unfold store_next retire in ground arith in
        let ref : v.heap.ref pred ≡ succ = unfold store_next retire in ground arith in
        let owns : Owns v job = λ n.
          let own = q.owns n in
          record {
            off = own.off;
            made = omega (arith, own.made, c.later.made);
            same =
                matches-same (job_node job) (job_node job) (target job) v.heap s.heap
                  (c.later.same_key _ own.made) (c.later.same_elem _ own.made)
                ∙ own.same;
          } in
        let f =
          arrives c.order c.agrees (s.began i) (inv.begun i) job head pred begins owns b live in
        rw swap (
          go_at inv i _ at v (find_next job head pred succ) c (rw ref at f) (inr (inl refl))
            (omega (arith, own_at inv i _ at, c.later.made)))
  ]

  pub back :
      (job : Job T) (head pred curr : Address)
      → s.pc i ≡ linking job head pred curr
      → Inv (goto i (find_head job head) s)
  unfolding Knows
  back job head pred curr at =
      let q = known inv i _ at in
      go_on inv i _ at (find_head job head) (q.begins, λ n. q.own) (inr refl)

  pub linking-Inv :
      (job : Job T) (head pred curr : Address)
      → s.pc i ≡ linking job head pred curr
      → next_is pred curr s.heap ≡ true
      → Inv (linked i job pred s)
  unfolding Knows Answered target
  linking-Inv (adding x node) head pred curr at swap =
      let q = known inv i _ at in
      let (ref, live) = next_is_sound pred curr s.heap swap in
      let b = q.pred_before in
      let c =
        Change-add inv.order inv.agrees (sought x) pred node b.linked_in
          (Before-inner inv.order (sought x) (make_ordinary_key-lt x) pred b) live b.low b.differs
          b.clear q.own.off q.own.made q.made (q.next_is ∙ sym ref) q.live q.own.same
          (rw ref q.above) i x refl in
      go_at inv i _ at _ (returning (add x) true) c (now (inv.begun i)) (inl refl)
        (omega (arith, q.own.made))
  linking-Inv (removing x) head pred curr at swap =
      let q = known inv i _ at in absurd (ground (arith, q.job_inserts))
  linking-Inv (placing index node) head pred curr at swap =
      let q = known inv i _ at in
      let (ref, live) = next_is_sound pred curr s.heap swap in
      let b = q.pred_before in
      let job : Job T = placing index node in
      let t = target job in
      let apart : (x : T) → t.key ≢ (sought x).key =
        λ x z. omega (arith, z, make_ordinary_key-odd x, make_sentinel_key-even index) in
      let c =
        Change-sentinel inv.order inv.agrees t pred node b.linked_in
          (Before-inner inv.order t (target-lt job) pred b) live b.low b.differs b.clear q.own.off
          q.own.made q.made (q.next_is ∙ sym ref) q.live q.own.same (rw ref q.above) apart in
      go_at inv i _ at _ (placed index node) c
        (ground arith, unfold store_next in matches-key node t s.heap q.own.same) (inl refl)
        (omega (arith, q.own.made))
