-- ===== src/BucketList/Machine/Alone/Finds.antt =====
-- `Find` of src/BucketList.h and what follows it, when no other thread comes in between.
use concurrent_hash_sets.Base.{
  ℕ, suc, zero, ◌+◌, ◌≤◌, ◌<◌, ◌≡◌, ◌≢◌, inl, inr, refl, ap, Bool, true, false, ◌==◌, ==→ne, arith,
  Bool-cases, update, update_self,
}
use concurrent_hash_sets.Element.{Element}
use concurrent_hash_sets.MarkableReference.{Address}
use concurrent_hash_sets.BucketList.Heap.{
  null, tail, at_or_past, next_is, new_node, store_next, retire,
}
use concurrent_hash_sets.BucketList.Order.{not_past}
use concurrent_hash_sets.BucketList.Order.Unlink.{Ordered_unlink}
use concurrent_hash_sets.BucketList.Machine.{
  Job, adding, removing, placing, find_next, unlinking, System, target, at_window, at_next, advance,
}
use concurrent_hash_sets.BucketList.Machine.Threads.{target-lt}
use concurrent_hash_sets.BucketList.Machine.Alone.{
  Finishes, step, from_returning, from_placed, finds, links, Fresh,
}

module _ {T : Type 0} ⦃e : Element T⦄ (blank : T) (i : ℕ) where
  module _ {on : Address → Bool} {rank : Address → ℕ} where
    -- the window is found, and nothing comes between it and what follows
    window :
        (s : System T) (job : Job T) (head pred curr : Address) (b : Bool)
        → Fresh blank i on rank s.heap job pred curr
        → s.heap.marked curr ≡ false
        → Finishes blank i (at_window blank i job head pred curr b s)
    unfolding at_window new_node store_next
    window s (adding x node) head pred curr true f live =
        from_returning blank i _ _ (update_self s.pc i _)
    window s (adding x node) head pred curr false f live = elim (Bool-cases (node == null)) [
      | inl z ↦ rw z (
          links blank i (adding x s.heap.allocated) head pred curr (update_self s.pc i _) refl
            (ground (arith, f.next, f.live, f.order.fresh pred f.pred_on)))
      | inr z ↦ rw z (
          links blank i (adding x node) head pred curr (update_self s.pc i _) refl
            (ground (arith, f.next, f.live, f.pred_on, f.own_off (==→ne node null z))))
    ]
    window s (removing x) head pred curr true f live =
        finds blank i x head pred curr (update_self s.pc i _) live
    window s (removing x) head pred curr false f live =
        from_returning blank i _ _ (update_self s.pc i _)
    window s (placing index node) head pred curr true f live =
        from_placed blank i _ _ (update_self s.pc i _)
    window s (placing index node) head pred curr false f live = elim (Bool-cases (node == null)) [
      | inl z ↦ rw z (
          links blank i (placing index s.heap.allocated) head pred curr (update_self s.pc i _) refl
            (ground (arith, f.next, f.live, f.order.fresh pred f.pred_on)))
      | inr z ↦ rw z (
          links blank i (placing index node) head pred curr (update_self s.pc i _) refl
            (ground (arith, f.next, f.live, f.pred_on, f.own_off (==→ne node null z))))
    ]

    find_on :
        {s : System T} (job : Job T) (head pred curr : Address)
        → s.pc i ≡ find_next job head pred curr
        → Fresh blank i on rank s.heap job pred curr
        → ((t : System T) (p c : Address)
            → t.pc i ≡ find_next job head p c
            → Fresh blank i on rank t.heap job p c
            → rank curr < rank c
            → Finishes blank i t)
        → Finishes blank i s
    unfolding advance at_next store_next retire
    find_on {s} job head pred curr at f again =
        let o = f.order in
        let on_curr : on curr ≡ true = rw f.next at (o.stays pred f.pred_on f.inner) in
        elim (Bool-cases (s.heap.marked curr)) [
          | inl dead ↦
              let nt : curr ≢ tail = ground (arith, dead, o.tail_unmarked) in
              let swap : next_is pred curr s.heap ≡ true = ground (arith, f.next, f.live) in
              step blank i _ at (
                rw dead (
                  step blank i _ (update_self s.pc i _) (
                    rw swap (
                      again _ pred (s.heap.ref curr)
                        (update_self
                          (update s.pc i (unlinking job head pred curr (s.heap.ref curr))) i _)
                        record {
                          order = Ordered_unlink o pred curr f.pred_on f.inner f.live f.next dead;
                          pred_on = f.pred_on;
                          inner = f.inner;
                          live = ground arith;
                          next = ground arith;
                          own_off = f.own_off;
                        }
                        (o.forward curr on_curr nt)))))
          | inr live ↦ elim (Bool-cases (at_or_past curr (target job) s.heap)) [
            | inl over ↦ step blank i _ at (rw (live, over) (window s job head pred curr _ f live))
            | inr under ↦
                let low = (not_past curr (target job) s.heap under).0 in
                let nt : curr ≢ tail =
                  λ z. omega (arith, ap s.heap.key z, low, o.tail_last, target-lt job) in
                step blank i _ at (
                  rw (live, under)
                    (again _ curr (s.heap.ref curr) (update_self s.pc i _)
                      record {
                        order = o;
                        pred_on = on_curr;
                        inner = nt;
                        live = live;
                        next = refl;
                        own_off = f.own_off;
                      }
                      (o.forward curr on_curr nt)))
          ]
        ]

    pub finding :
        (n : ℕ) {s : System T} (job : Job T) (head pred curr : Address)
        → s.pc i ≡ find_next job head pred curr
        → Fresh blank i on rank s.heap job pred curr
        → rank tail ≤ rank curr + n
        → Finishes blank i s
    finding zero job head pred curr at f l = find_on job head pred curr at f (λ t p c q g r.
        let on_c : on c ≡ true = rw g.next at (g.order.stays p g.pred_on g.inner) in
        absurd (omega (arith, g.order.ends c on_c)))
    finding (suc n) job head pred curr at f l =
        find_on job head pred curr at f (λ t p c q g r. finding n job head p c q g (omega arith))
