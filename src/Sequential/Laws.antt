-- ===== src/Sequential/Laws.antt =====
-- What the methods of src/HashSetSequential.h do to the table.
use concurrent_hash_sets.Base.{
  ℕ, ◌*◌, ◌%◌, ◌≡◌, refl, inl, inr, Bool, true, false, length, arith, Bool-cases, set, length-set,
}
use concurrent_hash_sets.Element.{Element, word}
use concurrent_hash_sets.Outcome.{Outcome, Allocator, then_return}
use concurrent_hash_sets.Word.{add_word}
use concurrent_hash_sets.Bucket.{push_back}
use concurrent_hash_sets.Table.{Table, bucket_at, refilled}
use concurrent_hash_sets.Table.Contents.{
  HoldsSet, Updates, same-Updates, push-Updates, erase-Updates, rehash-Updates,
}
use concurrent_hash_sets.Table.Ends.{
  AddEnds, no_table, no_room, half_moved, returned_new, returned_old, refilled-lt, length-spoil,
}
use concurrent_hash_sets.Sequential.{
  HashSetSequential, policy, resize, grow, bucket_index, add, remove, contains,
}

module _ {T : Type 0} ⦃e : Element T⦄ where
  abbrev pub IsValid : HashSetSequential T → Type 0
  IsValid s = HoldsSet (length s.table) s.table s.set_size

  -- A step from `s` to `t` by an operation on `x` that leaves it present or not.
  abbrev pub Changes :
      {s : HashSetSequential T} → IsValid s → T → Bool → HashSetSequential T → Type 0
  Changes v x present t = Updates v x present (length t.table) t.table t.set_size

  module _ {s : HashSetSequential T} (v : IsValid s) (x : T) where
    widen :
        {present : Bool} {n size' : ℕ} {table : Table T}
        → Updates v x present n table size'
        → Updates v x present (length table) table size'
    widen u = rw (u.holds.is_placed.width) u

    -- what `Add` has made of the set, and how it ends
    abbrev pub Ended : Allocator → HashSetSequential T × Outcome Bool → Type 0
    Ended mem r = AddEnds mem v x (length r.0.table) r.0.table r.0.set_size r.1

    resize-Ended :
        (mem : Allocator) {t : HashSetSequential T}
        → contains x s ≡ false
        → length t.table ≡ length s.table
        → Changes v x true t
        → Ended mem (then_return (resize mem t) true)
    unfolding resize contains bucket_index
    resize-Ended mem {t} absent same u = elim (Bool-cases (mem.fits (2 * length t.table % word))) [
      | inr full ↦ rw full (no_table absent (rw (← same) full) u)
      | inl fits ↦ elim (Bool-cases (refilled mem t.table)) [
        | inl all ↦
            rw (fits, all)
              (returned_new absent (
                widen (
                  rehash-Updates v x _ u (omega (arith, u.holds.is_placed.roomy))
                    (mem.fits_small _ fits))))
        | inr some_left ↦
            rw (fits, some_left)
              (half_moved absent (refilled-lt mem t.table some_left)
                (rw (length-spoil mem.refills t.table) u) refl)
      ]
    ]

    grow-Ended :
        (mem : Allocator) {t : HashSetSequential T}
        → contains x s ≡ false
        → length t.table ≡ length s.table
        → Changes v x true t
        → Ended mem (grow mem t)
    unfolding grow
    grow-Ended mem {t} absent same u = elim (Bool-cases (policy t)) [
      | inl over ↦ rw over (resize-Ended mem absent same u)
      | inr under ↦ rw under (returned_new (unfold contains bucket_index in absent) u)
    ]

    pub push-Changes :
        contains x s ≡ false
        → Changes v x true (record {
          table =
              set s.table (bucket_index x s) (push_back (bucket_at s.table (bucket_index x s)) x);
          set_size = add_word s.set_size 1;
        })
    unfolding contains bucket_index
    push-Changes absent = widen (push-Updates v x absent)

    -- Add of a valid sequential set ends in one of four ways: it returns whether the element was
    -- absent, and leaves a valid set with the element in it, the others as before and one more
    -- element if it was absent; or the element was absent and it throws, with the set changed in
    -- the same way because a larger table cannot be allocated, or with nothing changed because its
    -- own push_back gets no memory, or, because a push_back of Resize gets none, with the set
    -- changed in the same way but for the elements before it, which have been moved from.
    pub add-AddEnds : (mem : Allocator) → Ended mem (add mem x s)
    unfolding add bucket_index
    add-AddEnds mem = elim (Bool-cases (contains x s)) [
      | inl present ↦
          unfold contains bucket_index in
          rw present (returned_old present (same-Updates v x true present))
      | inr absent ↦ elim (Bool-cases mem.appends) [
        | inl room ↦
            let i = bucket_index x s in
            let same : length (set s.table i (push_back (bucket_at s.table i) x)) ≡ length s.table =
              length-set s.table i (push_back (bucket_at s.table i) x) in
            unfold contains bucket_index in
            simp (absent, room) (grow-Ended mem absent same (push-Changes absent))
        | inr full ↦
            unfold contains bucket_index in simp (absent, full) (no_room absent full refl refl refl)
      ]
    ]

    -- Remove of a valid sequential set leaves a valid set without the element, the others as before
    -- and one element less if it was there.
    pub remove-Changes : Changes v x false (remove x s).0
    unfolding remove bucket_index
    remove-Changes = elim (Bool-cases (contains x s)) [
      | inl present ↦ unfold contains bucket_index in rw present (widen (erase-Updates v x present))
      | inr absent ↦ unfold contains bucket_index in rw absent (same-Updates v x false absent)
    ]
