-- ===== src/Locked/Laws.antt =====
-- What each critical section does to the table.
use concurrent_hash_sets.Base.{
  ◌*◌, ◌%◌, ◌<◌, ◌≡◌, refl, inl, inr, Bool, true, false, Bool-cases, arith, length, flatten,
}
use concurrent_hash_sets.Element.{Element, word}
use concurrent_hash_sets.Outcome.{
  Outcome, returns, throws, allocation_failed, Allocator, then_return,
}
use concurrent_hash_sets.Bucket.{has}
use concurrent_hash_sets.Table.{rehash, refilled, spoil}
use concurrent_hash_sets.Table.Ends.{AddEnds, no_table, half_moved, returned_new, refilled-lt}
use concurrent_hash_sets.Table.Contents.{
  HoldsSet, Updates, same-Updates, push-Updates, erase-Updates, rehash-Updates,
}
use concurrent_hash_sets.Locked.{
  Locked, bucket, push, drop, count_up, count_down, insert, add_section, remove, contains, policy,
  enlarge, resize,
}

module _ {T : Type 0} ⦃e : Element T⦄ where
  abbrev pub IsValid : Locked T → Type 0
  IsValid s = HoldsSet s.capacity s.table s.set_size

  -- A step from a valid state to `t`, by an operation on `x` that leaves it present or not.
  abbrev pub Changes : {s : Locked T} → IsValid s → T → Bool → Locked T → Type 0
  Changes v x present t = Updates v x present t.capacity t.table t.set_size

  module _ {s : Locked T} (v : IsValid s) (x : T) where
    pub push-Changes : contains x s ≡ false → Changes v x true (count_up (push x s))
    unfolding contains push bucket count_up
    push-Changes absent = push-Updates v x absent

    pub drop-Changes : contains x s ≡ true → Changes v x false (count_down (drop x s))
    unfolding contains drop bucket count_down
    drop-Changes present = erase-Updates v x present

    pub same-Changes : (present : Bool) → contains x s ≡ present → Changes v x present s
    unfolding contains bucket
    same-Changes present h = same-Updates v x present h

    pub insert-Changes : Changes v x true (insert x s).0
    unfolding insert
    insert-Changes = elim (Bool-cases (contains x s)) [
      | inl present ↦ unfold contains in rw present (same-Changes true present)
      | inr absent ↦ unfold contains in rw absent (push-Changes absent)
    ]

    pub remove-Changes : Changes v x false (remove x s).0
    unfolding remove
    remove-Changes = elim (Bool-cases (contains x s)) [
      | inl present ↦ unfold contains in rw present (drop-Changes present)
      | inr absent ↦ unfold contains in rw absent (same-Changes false absent)
    ]

  pub remove-result : (x : T) (s : Locked T) → (remove x s).1 ≡ contains x s
  unfolding remove contains
  remove-result x s = ground arith

  -- The ends of `Resize`: nothing to do, a new table, no memory for one, or not for its buckets.
  pub data ResizeEnds (mem : Allocator) (t : Locked T)
      : Locked T × Outcome (Unit {0}) → Type 0 where
    kept : ResizeEnds mem t (t, returns tt)
    enlarged :
        mem.fits (2 * t.capacity % word) ≡ true
        → ResizeEnds mem t (
          record t {
            table = rehash (2 * t.capacity % word) t.table;
            capacity = 2 * t.capacity % word;
          },
          returns tt,
        )
    refused :
        mem.fits (2 * t.capacity % word) ≡ false → ResizeEnds mem t (t, throws allocation_failed)
    stopped :
        mem.refills < length (flatten t.table)
        → ResizeEnds mem t
            (record t { table = spoil mem.refills t.table }, throws allocation_failed)

  enlarge-ResizeEnds : (mem : Allocator) (t : Locked T) → ResizeEnds mem t (enlarge mem t)
  unfolding enlarge
  enlarge-ResizeEnds mem t = elim (Bool-cases (mem.fits (2 * t.capacity % word))) [
    | inr full ↦ rw full (refused full)
    | inl fits ↦ elim (Bool-cases (refilled mem t.table)) [
      | inl all ↦ rw (fits, all) (enlarged fits)
      | inr some_left ↦ rw (fits, some_left) (stopped (refilled-lt mem t.table some_left))
    ]
  ]

  pub resize-ResizeEnds : (mem : Allocator) (t : Locked T) → ResizeEnds mem t (resize mem t)
  unfolding resize
  resize-ResizeEnds mem t = elim (Bool-cases (policy t)) [
    | inl over ↦ rw over (enlarge-ResizeEnds mem t)
    | inr under ↦ rw under kept
  ]

  -- The end of an `Add` of a new element that has come to `Resize`.
  pub ResizeEnds-AddEnds :
      {mem : Allocator} {s : Locked T} (v : IsValid s) (x : T) {t : Locked T}
      {r : Locked T × Outcome (Unit {0})}
      → contains x s ≡ false
      → t.capacity ≡ s.capacity
      → Changes v x true t
      → ResizeEnds mem t r
      → AddEnds mem v x r.0.capacity r.0.table r.0.set_size (then_return (tt, r.1) true).1
  unfolding contains bucket
  ResizeEnds-AddEnds v x absent same u kept = returned_new absent u
  ResizeEnds-AddEnds {mem} v x {t} absent same u (enlarged fits) = returned_new absent (
      rehash-Updates v x (2 * t.capacity % word) u
        (omega (arith, u.holds.is_placed.roomy, u.holds.small)) (mem.fits_small _ fits))
  ResizeEnds-AddEnds v x absent same u (refused full) = no_table absent (rw (← same) full) u
  ResizeEnds-AddEnds v x absent same u (stopped less) = half_moved absent less u refl

  -- The section of `Add` ends with the element found, with it added, or with no memory for it.
  pub data SectionEnds (mem : Allocator) (x : T) (s : Locked T)
      : Locked T × Outcome Bool → Type 0 where
    found : contains x s ≡ true → SectionEnds mem x s (s, returns false)
    added :
        contains x s ≡ false
        → mem.appends ≡ true
        → SectionEnds mem x s (count_up (push x s), returns true)
    refused :
        contains x s ≡ false
        → mem.appends ≡ false
        → SectionEnds mem x s (s, throws allocation_failed)

  pub add_section-SectionEnds :
      (mem : Allocator) (x : T) (s : Locked T) → SectionEnds mem x s (add_section mem x s)
  unfolding add_section contains
  add_section-SectionEnds mem x s = elim (Bool-cases (has x (bucket x s))) [
    | inl q ↦ rw q (found q)
    | inr q ↦ elim (Bool-cases mem.appends) [
      | inl f ↦ simp (q, f) (added q f)
      | inr f ↦ simp (q, f) (refused q f)
    ]
  ]

  pub push-capacity : (x : T) (s : Locked T) → (count_up (push x s)).capacity ≡ s.capacity
  unfolding push count_up
  push-capacity x s = refl

  pub insert-capacity : (x : T) (s : Locked T) → (insert x s).0.capacity ≡ s.capacity
  unfolding insert push count_up
  insert-capacity x s = ground arith

  pub remove-capacity : (x : T) (s : Locked T) → (remove x s).0.capacity ≡ s.capacity
  unfolding remove drop count_down
  remove-capacity x s = ground arith
