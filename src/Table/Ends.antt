-- ===== src/Table/Ends.antt =====
-- How the `Add` of a table set ends, with memory or without.
use concurrent_hash_sets.Base.{
  ℕ, ◌-◌, [], ◌∷◌, ◌*◌, ◌%◌, ◌<◌, ◌≡◌, refl, inl, inr, Bool, true, false, not, length, flatten,
  arith,
}
use concurrent_hash_sets.Element.{Element, word}
use concurrent_hash_sets.Outcome.{Outcome, returns, throws, allocation_failed, Allocator}
use concurrent_hash_sets.Bucket.{has}
use concurrent_hash_sets.Table.{Table, home, bucket_at, refilled, spoil}
use concurrent_hash_sets.Table.Contents.{HoldsSet, Updates}
use concurrent_hash_sets.Contract.{Answers}

module _ {T : Type 0} ⦃e : Element T⦄ where
  -- Add of `x` to a valid table that turns it into `fresh`, of `m` buckets, and ends with an outcome:
  -- it returns whether the element was absent, with the element in the set; or the larger table is
  -- refused, with the element in; or the `push_back` is, and nothing has changed; or a `push_back` of
  -- the resize is, and the elements before it have been moved from.
  pub data AddEnds (mem : Allocator) {n : ℕ} {table : Table T} {size : ℕ}
      (v : HoldsSet n table size) (x : T) (m : ℕ) (fresh : Table T) (size' : ℕ)
      : Outcome Bool → Type 0 where
    returned :
        Updates v x true m fresh size'
        → AddEnds mem v x m fresh size' (returns (not (has x (bucket_at table (home x n)))))
    no_table :
        has x (bucket_at table (home x n)) ≡ false
        → mem.fits (2 * n % word) ≡ false
        → Updates v x true m fresh size'
        → AddEnds mem v x m fresh size' (throws allocation_failed)
    no_room :
        has x (bucket_at table (home x n)) ≡ false
        → mem.appends ≡ false
        → m ≡ n
        → fresh ≡ table
        → size' ≡ size
        → AddEnds mem v x m fresh size' (throws allocation_failed)
    half_moved :
        {old : Table T}
        → has x (bucket_at table (home x n)) ≡ false
        → mem.refills < length (flatten old)
        → Updates v x true m old size'
        → fresh ≡ spoil mem.refills old
        → AddEnds mem v x m fresh size' (throws allocation_failed)

  pub refilled-lt :
      (mem : Allocator) (old : Table T)
      → refilled mem old ≡ false
      → mem.refills < length (flatten old)
  unfolding refilled
  refilled-lt mem old h = ground arith

  pub length-spoil : (k : ℕ) (old : Table T) → length (spoil k old) ≡ length old
  unfolding spoil
  length-spoil k [] = refl
  length-spoil k (b ∷ bs) = omega (arith, length-spoil (k - length b) bs)

  module _ {mem : Allocator} {n : ℕ} {table : Table T} {size : ℕ} {v : HoldsSet n table size}
      {x : T} {m : ℕ} {fresh : Table T} {size' : ℕ} where
    pub returned_new :
        has x (bucket_at table (home x n)) ≡ false
        → Updates v x true m fresh size'
        → AddEnds mem v x m fresh size' (returns true)
    returned_new absent u =
        let ends : AddEnds mem v x m fresh size'
            (returns (not (has x (bucket_at table (home x n))))) =
          returned u in
        rw absent at ends

    pub returned_old :
        has x (bucket_at table (home x n)) ≡ true
        → Updates v x true m fresh size'
        → AddEnds mem v x m fresh size' (returns false)
    returned_old present u =
        let ends : AddEnds mem v x m fresh size'
            (returns (not (has x (bucket_at table (home x n))))) =
          returned u in
        rw present at ends

    -- An Add that returns has the element in the set.
    pub AddEnds-Updates :
        {o : Outcome Bool} {b : Bool}
        → AddEnds mem v x m fresh size' o
        → o ≡ returns b
        → Updates v x true m fresh size'
    AddEnds-Updates (returned u) q = u
    AddEnds-Updates (no_table a f u) q = cc
    AddEnds-Updates (no_room a f k t z) q = cc
    AddEnds-Updates (half_moved a f u t) q = cc

    pub AddEnds-Answers :
        {o : Outcome Bool}
        → AddEnds mem v x m fresh size' o
        → Answers o (has x (bucket_at table (home x n)))
    AddEnds-Answers (returned u) = inl refl
    AddEnds-Answers (no_table a f u) = inr (a, refl)
    AddEnds-Answers (no_room a f k t z) = inr (a, refl)
    AddEnds-Answers (half_moved a f u t) = inr (a, refl)
