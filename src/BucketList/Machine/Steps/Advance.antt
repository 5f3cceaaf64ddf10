-- ===== src/BucketList/Machine/Steps/Advance.antt =====
-- Every shared access of src/BucketList.h keeps what holds between the steps.
use concurrent_hash_sets.Base.{
  ℕ, ◌%◌, ◌≡◌, ◌≢◌, inl, inr, refl, ap, Bool, true, false, not, arith, Bool-cases, update,
  ℕ_discrete,
}
use concurrent_hash_sets.Element.{Element}
use concurrent_hash_sets.MarkableReference.{Address}
use concurrent_hash_sets.History.{remove, contains}
use concurrent_hash_sets.BucketList.Keys.Order.{
  make_ordinary_key-odd, make_ordinary_key-lt, make_sentinel_key-even,
}
use concurrent_hash_sets.BucketList.Heap.{null, tail, next_is, store_next}
use concurrent_hash_sets.BucketList.Order.{matches-key}
use concurrent_hash_sets.BucketList.World.{sought, now}
use concurrent_hash_sets.BucketList.World.Changes.{Change-none}
use concurrent_hash_sets.BucketList.World.Changes.Marks.{Change-mark}
use concurrent_hash_sets.BucketList.Machine.{
  removing, Pc, idle, find_head, find_next, unlinking, linking, found, marking, dropping, looking,
  checking, returning, placed, System, goto, look, target, advance,
}
use concurrent_hash_sets.BucketList.Machine.Threads.{Answered, Knows}
use concurrent_hash_sets.BucketList.Machine.Threads.Stays.{Before-kept}
use concurrent_hash_sets.BucketList.Machine.Invariant.{Inv, here, move}
use concurrent_hash_sets.BucketList.Machine.Steps.{known, go_at, go_on, next_is_sound}
use concurrent_hash_sets.BucketList.Machine.Steps.Look.{look-Inv, next-Toward}
use concurrent_hash_sets.BucketList.Machine.Steps.Search.{
  find_head-Inv, at_next-Inv, unlink, unlinking-Inv, back, linking-Inv,
}

module _ {T : Type 0} ⦃e : Element T⦄ {s : System T} (inv : Inv s) (i : ℕ) (blank : T) where
  marking-Inv :
      (x : T) (head pred curr succ : Address)
      → s.pc i ≡ marking x head pred curr succ
      → Inv (advance blank i (marking x head pred curr succ) s)
  unfolding advance Knows target
  marking-Inv x head pred curr succ at = elim (Bool-cases (next_is curr succ s.heap)) [
    | inr failed ↦
        let q = known inv i _ at in
        rw failed (
          go_on inv i _ at (find_head (removing x) head) (q.begins, λ n. absurd (n refl))
            (inl refl))
    | inl swap ↦
        let q = known inv i _ at in
        let (ref, live) = next_is_sound curr succ s.heap swap in
        let key = matches-key curr (sought x) s.heap q.same in
        let nt : curr ≢ tail =
          λ z. omega (arith, ap s.heap.key z, key, inv.order.tail_last, make_ordinary_key-lt x) in
        let odd : s.heap.key curr % 2 ≡ 1 = rw key (make_ordinary_key-odd x) in
        let c =
          rw ref at (Change-mark inv.order inv.agrees null curr i x q.curr_on nt live q.same odd) in
        rw swap (
          go_at inv i _ at _ (dropping x pred curr succ) c
            record {
              pred_before = Before-kept inv.order c.order c.later q.pred_before;
              curr_on = q.curr_on;
              dead = unfold store_next in ground arith;
              next_is = unfold store_next in ground arith;
              effected = now (inv.begun i);
            }
            (inl refl) (omega (arith, inv.order.fresh _ inv.order.root_on)))
  ]

  dropping-Inv :
      (x : T) (pred curr succ : Address)
      → s.pc i ≡ dropping x pred curr succ
      → Inv (advance blank i (dropping x pred curr succ) s)
  unfolding advance Knows Answered target
  dropping-Inv x pred curr succ at = elim (Bool-cases (next_is pred curr s.heap)) [
    | inr failed ↦
        let q = known inv i _ at in
        rw failed (go_on inv i _ at (returning (remove x) true) q.effected (inl refl))
    | inl swap ↦
        let q = known inv i _ at in
        let c =
          unlink inv i blank (sought x) pred curr succ (make_ordinary_key-lt x) q.pred_before q.dead
            q.next_is swap null in
        rw swap (
          go_at inv i _ at _ (returning (remove x) true) c q.effected (inl refl)
            (omega (arith, c.later.made, inv.order.fresh _ inv.order.root_on)))
  ]

  looking-Inv :
      (x : T) (curr : Address) → s.pc i ≡ looking x curr → Inv (look i x (s.heap.ref curr) s)
  unfolding Knows
  looking-Inv x curr at =
      let q = known inv i _ at in
      let nt : curr ≢ tail =
        λ z. omega (arith, ap s.heap.key z, q.low, inv.order.tail_last, make_ordinary_key-lt x) in
      look-Inv inv i _ at x (s.heap.ref curr) (inv.order.stays curr q.curr_on nt) (elim q.either [
        | inl z ↦ inl z
        | inr a ↦ inr (next-Toward inv.order inv.agrees x curr q.curr_on nt a)
      ])

  checking-Inv :
      (x : T) (curr : Address)
      → s.pc i ≡ checking x curr
      → (b : Bool) → s.heap.marked curr ≡ b
      → Inv (goto i (returning (contains x) (not b)) s)
  unfolding Knows Answered
  checking-Inv x curr at true m =
      let q = known inv i _ at in
      go_on inv i _ at _ (elim q.either [ inl z ↦ z | inr live ↦ absurd (ground (arith, m, live)) ])
        (inl refl)
  checking-Inv x curr at false m =
      let q = known inv i _ at in
      go_on inv i _ at _ (now (inv.begun i) (inv.agrees.absent x curr q.curr_on m q.same))
        (inl refl)

  placed-Inv :
      (index : ℕ) (a : Address)
      → s.pc i ≡ placed index a
      → Inv (goto i idle (record s { given = update s.given a true }))
  unfolding Knows
  placed-Inv index a at =
      let (on_a, key) = known inv i _ at in
      let even : s.heap.key a % 2 ≡ 0 = rw key (make_sentinel_key-even index) in
      move inv i (here inv) idle (update s.given a true) s.began
        (Change-none inv.order inv.agrees _) (λ j d. refl) (inv.begun i)
        (λ b q. elim (ℕ_discrete a b) [
          | yes z ↦ rw (← z) (on_a, even)
          | no z ↦ inv.sentinels b (ground (arith, q, z))
        ])
        tt (inl refl) (omega (arith, inv.order.fresh _ inv.order.root_on))

  advance-at : (c : Pc T) → s.pc i ≡ c → Inv (advance blank i c s)
  unfolding advance Knows
  advance-at idle at = inv
  advance-at (find_head job head) at = find_head-Inv inv i blank job head at
  advance-at (find_next job head pred curr) at =
      at_next-Inv inv i blank job head pred curr at _ refl
  advance-at (unlinking job head pred curr succ) at =
      unlinking-Inv inv i blank job head pred curr succ at
  advance-at (linking job head pred curr) at = elim (Bool-cases (next_is pred curr s.heap)) [
    | inl swap ↦ rw swap (linking-Inv inv i blank job head pred curr at swap)
    | inr failed ↦ rw failed (back inv i blank job head pred curr at)
  ]
  advance-at (found x head pred curr) at =
      go_on inv i _ at (marking x head pred curr (s.heap.ref curr)) (known inv i _ at) (inl refl)
  advance-at (marking x head pred curr succ) at = marking-Inv x head pred curr succ at
  advance-at (dropping x pred curr succ) at = dropping-Inv x pred curr succ at
  advance-at (looking x curr) at = looking-Inv x curr at
  advance-at (checking x curr) at = checking-Inv x curr at _ refl
  advance-at (returning op b) at = go_on inv i _ at idle tt (inl refl)
  advance-at (placed index a) at = placed-Inv index a at

  pub advance-Inv : Inv (advance blank i (s.pc i) s)
  advance-Inv = advance-at (s.pc i) refl
