-- ===== src/BucketList/Machine/Alone/Ends.antt =====
-- Every call of src/BucketList.h ends when no other thread comes in between.
use concurrent_hash_sets.Base.{
  ℕ, ◌≡◌, ◌≢◌, inl, inr, refl, ap, Bool, true, false, ◌==◌, arith, Bool-cases, update_self,
}
use concurrent_hash_sets.Element.{Element}
use concurrent_hash_sets.MarkableReference.{Address}
use concurrent_hash_sets.BucketList.Heap.{null, tail, at_or_past, next_is, store_next, retire}
use concurrent_hash_sets.BucketList.Order.{not_past}
use concurrent_hash_sets.BucketList.Order.Unlink.{Ordered_unlink}
use concurrent_hash_sets.BucketList.Machine.{
  Job, adding, removing, placing, Pc, idle, find_head, find_next, unlinking, linking, found,
  marking, dropping, looking, checking, returning, placed, System, target, at_window, at_next,
  advance, Reach,
}
use concurrent_hash_sets.BucketList.Machine.Threads.{Knows, target-lt, Before-inner, Start-Before}
use concurrent_hash_sets.BucketList.Machine.Invariant.{Inv}
use concurrent_hash_sets.BucketList.Machine.Steps.{known, next_is_sound}
use concurrent_hash_sets.BucketList.Machine.Steps.Advance.{advance-Inv}
use concurrent_hash_sets.BucketList.Machine.Reachable.{Reach-Inv}
use concurrent_hash_sets.BucketList.Machine.Alone.{
  run_alone, Finishes, step, arrived, from_returning, from_placed, from_dropping, from_checking,
  marks, links,
}
use concurrent_hash_sets.BucketList.Machine.Alone.Finds.{finding}
use concurrent_hash_sets.BucketList.Machine.Alone.Looks.{from_looking}

module _ {T : Type 0} ⦃e : Element T⦄ (blank : T) (i : ℕ) where
  from_find_head :
      {s : System T} (inv : Inv s) (job : Job T) (head : Address)
      → s.pc i ≡ find_head job head
      → Finishes blank i s
  unfolding advance Knows
  from_find_head {s} inv job head at =
      let o = inv.order in
      let (begins, owns) = known inv i _ at in
      let b = Start-Before o (target job) (target-lt job) head begins in
      step blank i _ at (
        finding blank i (inv.rank tail) job head head (s.heap.ref head) (update_self s.pc i _)
          record {
            order = o;
            pred_on = begins.linked_in;
            inner = Before-inner o (target job) (target-lt job) head b;
            live = o.sentinel head begins.linked_in begins.even;
            next = refl;
            own_off = λ n. (owns n).off;
          }
          (omega arith))

  from_marking :
      {s : System T} (inv : Inv s) (x : T) (head pred curr succ : Address)
      → s.pc i ≡ marking x head pred curr succ
      → Finishes blank i s
  unfolding advance
  from_marking {s} inv x head pred curr succ at = elim (Bool-cases (next_is curr succ s.heap)) [
    | inl swap ↦ marks blank i x head pred curr succ at swap
    | inr failed ↦
        let after : Inv (advance blank i (marking x head pred curr succ) s) =
          rw at at (advance-Inv inv i blank) in
        step blank i _ at (
          rw failed (
            from_find_head (rw failed at after) (removing x) head
              (update_self s.pc i (find_head (removing x) head))))
  ]

  from_linking :
      {s : System T} (inv : Inv s) (job : Job T) (head pred curr : Address)
      → s.pc i ≡ linking job head pred curr
      → Finishes blank i s
  unfolding advance Knows
  from_linking {s} inv job head pred curr at = elim (Bool-cases (next_is pred curr s.heap)) [
    | inl swap ↦ let k = known inv i _ at in links blank i job head pred curr at k.job_inserts swap
    | inr failed ↦
        let after : Inv (advance blank i (linking job head pred curr) s) =
          rw at at (advance-Inv inv i blank) in
        step blank i _ at (
          rw failed (
            from_find_head (rw failed at after) job head (update_self s.pc i (find_head job head))))
  ]

  from_unlinking :
      {s : System T} (inv : Inv s) (job : Job T) (head pred curr succ : Address)
      → s.pc i ≡ unlinking job head pred curr succ
      → Finishes blank i s
  unfolding advance Knows store_next retire
  from_unlinking {s} inv job head pred curr succ at =
      let o = inv.order in
      let k = known inv i _ at in
      elim (Bool-cases (next_is pred curr s.heap)) [
        | inl swap ↦
            let (ref, live) = next_is_sound pred curr s.heap swap in
            let b = k.pred_before in
            let inner = Before-inner o (target job) (target-lt job) pred b in
            step blank i _ at (
              rw swap (
                finding blank i {on = inv.on} {rank = inv.rank} (inv.rank tail) job head pred succ
                  (update_self s.pc i _)
                  record {
                    order =
                        rw (← k.next_is)
                          (Ordered_unlink o pred curr b.linked_in inner live ref k.dead);
                    pred_on = b.linked_in;
                    inner = inner;
                    live = ground arith;
                    next = ground arith;
                    own_off = λ n. (k.owns n).off;
                  }
                  (omega arith)))
        | inr failed ↦
            let after : Inv (advance blank i (unlinking job head pred curr succ) s) =
              rw at at (advance-Inv inv i blank) in
            step blank i _ at (
              rw failed (
                from_find_head (rw failed at after) job head
                  (update_self s.pc i (find_head job head))))
      ]

  from_found :
      {s : System T} (inv : Inv s) (x : T) (head pred curr : Address)
      → s.pc i ≡ found x head pred curr
      → Finishes blank i s
  unfolding advance
  from_found {s} inv x head pred curr at =
      let after : Inv (advance blank i (found x head pred curr) s) =
        rw at at (advance-Inv inv i blank) in
      step blank i _ at
        (from_marking after x head pred curr (s.heap.ref curr) (update_self s.pc i _))

  from_window :
      (s : System T) (job : Job T) (head pred curr : Address) (b : Bool)
      → Inv (at_window blank i job head pred curr b s)
      → Finishes blank i (at_window blank i job head pred curr b s)
  unfolding at_window
  from_window s (adding x node) head pred curr true inv =
      from_returning blank i _ _ (update_self s.pc i _)
  from_window s (adding x node) head pred curr false inv = elim (Bool-cases (node == null)) [
    | inl z ↦ rw z (
        from_linking (rw z at inv) (adding x s.heap.allocated) head pred curr
          (update_self s.pc i _))
    | inr z ↦
        rw z (from_linking (rw z at inv) (adding x node) head pred curr (update_self s.pc i _))
  ]
  from_window s (removing x) head pred curr true inv =
      from_found inv x head pred curr (update_self s.pc i _)
  from_window s (removing x) head pred curr false inv =
      from_returning blank i _ _ (update_self s.pc i _)
  from_window s (placing index node) head pred curr true inv =
      from_placed blank i _ _ (update_self s.pc i _)
  from_window s (placing index node) head pred curr false inv = elim (Bool-cases (node == null)) [
    | inl z ↦ rw z (
        from_linking (rw z at inv) (placing index s.heap.allocated) head pred curr
          (update_self s.pc i _))
    | inr z ↦
        rw z (from_linking (rw z at inv) (placing index node) head pred curr (update_self s.pc i _))
  ]

  from_find_next :
      {s : System T} (inv : Inv s) (job : Job T) (head pred curr : Address)
      → s.pc i ≡ find_next job head pred curr
      → Finishes blank i s
  unfolding advance at_next Knows
  from_find_next {s} inv job head pred curr at =
      let o = inv.order in
      let k = known inv i _ at in
      let after : Inv (advance blank i (find_next job head pred curr) s) =
        rw at at (advance-Inv inv i blank) in
      elim (Bool-cases (s.heap.marked curr)) [
        | inl dead ↦ step blank i _ at (
            rw dead (
              from_unlinking (rw dead at after) job head pred curr (s.heap.ref curr)
                (update_self s.pc i _)))
        | inr live ↦ elim (Bool-cases (at_or_past curr (target job) s.heap)) [
          | inl over ↦
              step blank i _ at
                (rw (live, over) (from_window s job head pred curr _ (rw (live, over) at after)))
          | inr under ↦
              let low = (not_past curr (target job) s.heap under).0 in
              let nt : curr ≢ tail =
                λ z. omega (arith, ap s.heap.key z, low, o.tail_last, target-lt job) in
              step blank i _ at (
                rw (live, under)
                  (finding blank i {on = inv.on} {rank = inv.rank} (inv.rank tail) job head curr
                    (s.heap.ref curr) (update_self s.pc i _)
                    record {
                      order = o;
                      pred_on = k.curr_on;
                      inner = nt;
                      live = live;
                      next = refl;
                      own_off = λ n. (k.owns n).off;
                    }
                    (omega arith)))
        ]
      ]

  finishes_at : {s : System T} (inv : Inv s) (c : Pc T) → s.pc i ≡ c → Finishes blank i s
  unfolding Knows
  finishes_at inv idle at = arrived blank i at
  finishes_at inv (find_head job head) at = from_find_head inv job head at
  finishes_at inv (find_next job head pred curr) at = from_find_next inv job head pred curr at
  finishes_at inv (unlinking job head pred curr succ) at =
      from_unlinking inv job head pred curr succ at
  finishes_at inv (linking job head pred curr) at = from_linking inv job head pred curr at
  finishes_at inv (found x head pred curr) at = from_found inv x head pred curr at
  finishes_at inv (marking x head pred curr succ) at = from_marking inv x head pred curr succ at
  finishes_at inv (dropping x pred curr succ) at = from_dropping blank i x pred curr succ at
  finishes_at inv (looking x curr) at =
      let k = known inv i _ at in
      from_looking blank i (inv.rank tail) x curr at inv.order k.curr_on k.low (omega arith)
  finishes_at inv (checking x curr) at = from_checking blank i x curr at
  finishes_at inv (returning op b) at = from_returning blank i op b at
  finishes_at inv (placed index a) at = from_placed blank i index a at

module _ {T : Type 0} ⦃e : Element T⦄ where
  -- From every reachable state of the list, a thread that goes on alone comes to the end of its
  -- call after some number of steps.
  pub finishes_alone :
      {blank : T} {s : System T} (i : ℕ)
      → Reach blank s
      → (n : ℕ) × ((run_alone blank i n s).pc i ≡ idle)
  finishes_alone {blank} i r = let f = finishes_at blank i (Reach-Inv r) _ refl in (f.steps, f.ends)
