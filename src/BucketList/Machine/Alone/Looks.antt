-- ===== src/BucketList/Machine/Alone/Looks.antt =====
-- `Contains` of src/BucketList.h when no other thread comes in between.
use concurrent_hash_sets.Base.{
  ℕ, suc, zero, ◌+◌, ◌≤◌, ◌<◌, ◌≡◌, ◌≢◌, inl, inr, ap, Bool, true, arith, Bool-cases, update_self,
}
use concurrent_hash_sets.Element.{Element}
use concurrent_hash_sets.MarkableReference.{Address}
use concurrent_hash_sets.BucketList.Keys.{make_ordinary_key}
use concurrent_hash_sets.BucketList.Keys.Order.{make_ordinary_key-lt}
use concurrent_hash_sets.BucketList.Heap.{tail, matches, at_or_past}
use concurrent_hash_sets.BucketList.Order.{Ordered, not_past}
use concurrent_hash_sets.BucketList.World.{sought}
use concurrent_hash_sets.BucketList.Machine.{looking, System, goto, look, target, advance}
use concurrent_hash_sets.BucketList.Machine.Alone.{Finishes, step, from_returning, from_checking}

module _ {T : Type 0} ⦃e : Element T⦄ (blank : T) (i : ℕ) where
  module _ {on : Address → Bool} {rank : Address → ℕ} where
    look_on :
        {s : System T} (x : T) (curr : Address)
        → s.pc i ≡ looking x curr
        → Ordered on rank s.heap
        → on curr ≡ true
        → s.heap.key curr ≤ make_ordinary_key x
        → (rank curr < rank (s.heap.ref curr)
            → on (s.heap.ref curr) ≡ true
            → s.heap.key (s.heap.ref curr) ≤ make_ordinary_key x
            → Finishes blank i (goto i (looking x (s.heap.ref curr)) s))
        → Finishes blank i s
    unfolding advance look target
    look_on {s} x curr at o on_curr low again =
        let nt : curr ≢ tail =
          λ z. omega (arith, ap s.heap.key z, low, o.tail_last, make_ordinary_key-lt x) in
        let succ = s.heap.ref curr in
        elim (Bool-cases (at_or_past succ (sought x) s.heap)) [
          | inl over ↦ elim (Bool-cases (matches succ (sought x) s.heap)) [
            | inl same ↦
                step blank i _ at
                  (rw (over, same) (from_checking blank i x succ (update_self s.pc i _)))
            | inr other ↦
                step blank i _ at
                  (rw (over, other) (from_returning blank i _ _ (update_self s.pc i _)))
          ]
          | inr under ↦ step blank i _ at (
              rw under (
                again (o.forward curr on_curr nt) (o.stays curr on_curr nt)
                  (not_past succ (sought x) s.heap under).0))
        ]

    pub from_looking :
        (n : ℕ) {s : System T} (x : T) (curr : Address)
        → s.pc i ≡ looking x curr
        → Ordered on rank s.heap
        → on curr ≡ true
        → s.heap.key curr ≤ make_ordinary_key x
        → rank tail ≤ rank curr + n
        → Finishes blank i s
    from_looking zero x curr at o on_curr low l =
        look_on x curr at o on_curr low (λ r q k. absurd (omega (arith, o.ends _ q)))
    from_looking (suc n) {s} x curr at o on_curr low l =
        look_on x curr at o on_curr low
          (λ r q k. from_looking n x (s.heap.ref curr) (update_self s.pc i _) o q k (omega arith))
