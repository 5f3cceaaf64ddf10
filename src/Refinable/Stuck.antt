-- ===== src/Refinable/Stuck.antt =====
-- `Resize` of src/HashSetRefinable.h when an exception leaves it.
use concurrent_hash_sets.Base.{
  ℕ, suc, ◌*◌, ◌%◌, ◌≡◌, refl, inl, inr, true, false, Bool-cases, arith, some, set,
}
use concurrent_hash_sets.Element.{Element, word}
use concurrent_hash_sets.Outcome.{throws, allocation_failed, Allocator}
use concurrent_hash_sets.Locked
use concurrent_hash_sets.Locked.Laws.{insert-Changes, insert-capacity}
use concurrent_hash_sets.Refinable.{
  HashSetRefinable, done, spinning, fill_new_table, resize, grow, finish_add, add, remove, contains,
}
use concurrent_hash_sets.Refinable.Places.{quiesce-done, enlarge-done, enlarge-throws}
use concurrent_hash_sets.Refinable.Laws.{IsValid, scoped_lock-done, spins, insert_at-new, set_core}
use concurrent_hash_sets.Refinable.Grow.{busy, busy-HasArena}

module _ {T : Type 0} ⦃e : Element T⦄ where
  -- No call of the set ever gets its lock again.
  abbrev pub IsStuck : HashSetRefinable T → Type 0
  IsStuck s =
      (fuel : ℕ) (mem : Allocator) (x : T)
      → (add fuel mem x s ≡ spinning)
        × (remove fuel x s ≡ spinning)
        × (contains fuel x s ≡ spinning)

  resizing-IsStuck : (s : HashSetRefinable T) → s.resizing ≡ true → IsStuck s
  unfolding add remove contains
  resizing-IsStuck s h fuel mem x = let e = spins fuel x s h in (rw e, rw e, rw e)

  resize-throws :
      (mem : Allocator) {rounds : ℕ} {s : HashSetRefinable T}
      → IsValid rounds s
      → Locked.policy s.core ≡ true
      → mem.fits (2 * s.capacity % word) ≡ false
      → (t : HashSetRefinable T) × (resize mem s ≡ done (t, throws allocation_failed))
        × (t.resizing ≡ true)
  unfolding resize fill_new_table busy
  resize-throws mem {rounds} {s} v over full =
      let a = busy-HasArena v.has_arena in
      let calm = quiesce-done a s.capacity 0 (omega arith) in
      elim (Bool-cases (mem.fits s.capacity)) [
        | inl mutexes ↦ (
          record (busy s) { arena = set s.arena (suc rounds) (some s.capacity) },
          simp (v.idle, over, calm, enlarge-done a mem mutexes, full),
          refl,
        )
        | inr none_left ↦ (busy s, simp (v.idle, over, calm, enlarge-throws a mem none_left), refl)
      ]

  -- If Add of an absent element, whose push_back gets its memory, makes a valid refinable set want
  -- a larger table that cannot be allocated, it throws, and every later Add, Remove and Contains
  -- spins for any number of rounds.
  pub add-IsStuck :
      (mem : Allocator) (fuel : ℕ) {rounds : ℕ} {s : HashSetRefinable T} (x : T)
      → IsValid rounds s
      → Locked.contains x s.core ≡ false
      → Locked.policy (Locked.insert x s.core).0 ≡ true
      → mem.appends ≡ true
      → mem.fits (2 * s.capacity % word) ≡ false
      → (t : HashSetRefinable T) × (add (suc fuel) mem x s ≡ done (t, throws allocation_failed))
        × IsStuck t
  unfolding add finish_add grow
  add-IsStuck mem fuel {rounds} {s} x v absent over room full =
      let same = insert-capacity x s.core in
      let w = set_core v x (insert-Changes v.holds x).holds same in
      let (t, run, set) = resize-throws mem w over (rw same full) in
      (
        t,
        rw (scoped_lock-done v x fuel, insert_at-new v x mem absent room, over, run),
        resizing-IsStuck t set,
      )
