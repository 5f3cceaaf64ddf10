-- ===== src/Sequential/Results.antt =====
-- What the methods of src/HashSetSequential.h return, and the load of the table.
use concurrent_hash_sets.Base.{
  ℕ, ◌+◌, ◌*◌, ◌/◌, ◌%◌, ◌≤◌, ◌≡◌, inl, inr, Bool, true, false, not, max, length, length-set,
  length-replicate, List, [], ltb→le, replicate, set, arith, Bool-cases,
}
use concurrent_hash_sets.Element.{Element, word}
use concurrent_hash_sets.Outcome.{returns, Allocator}
use concurrent_hash_sets.Bucket.{push_back}
use concurrent_hash_sets.Table.{bucket_at, refilled}
use concurrent_hash_sets.Table.Contents.{empty-HoldsSet, empty-member}
use concurrent_hash_sets.Table.Rehash.{rehash-SameContents}
use concurrent_hash_sets.Sequential.{
  HashSetSequential, new, policy, resize, grow, bucket_index, add, remove, contains,
}
use concurrent_hash_sets.Sequential.Laws.{IsValid, push-Changes}

module _ {T : Type 0} ⦃e : Element T⦄ where
  grow-returns :
      (mem : Allocator) (t : HashSetSequential T)
      → mem.fits (2 * length t.table % word) ≡ true
      → refilled mem t.table ≡ true
      → (grow mem t).1 ≡ returns true
  unfolding grow resize
  grow-returns mem t h all = ground arith

  -- Add of the sequential set returns whether the element was absent, if its `push_back` gets its
  -- memory, a table of twice the buckets can be allocated, and that table can take the elements.
  pub add-returns :
      (mem : Allocator) (x : T) (s : HashSetSequential T)
      → mem.fits (2 * length s.table % word) ≡ true
      → mem.appends ≡ true
      → refilled mem
          (set s.table (bucket_index x s) (push_back (bucket_at s.table (bucket_index x s)) x))
        ≡ true
      → (add mem x s).1 ≡ returns (not (contains x s))
  unfolding add contains bucket_index
  add-returns mem x s h room all = elim (Bool-cases (contains x s)) [
    | inl present ↦ unfold contains bucket_index in rw present
    | inr absent ↦
        unfold contains bucket_index in
        simp (absent, room) (grow-returns mem _ (rw length-set h) all)
  ]

  pub remove-result : (x : T) (s : HashSetSequential T) → (remove x s).1 ≡ contains x s
  unfolding remove contains bucket_index
  remove-result x s = ground arith

  -- The load factor bound: three elements to four buckets.
  abbrev pub IsSparse : HashSetSequential T → Type 0
  IsSparse s = s.set_size ≤ length s.table * 3 / 4

  grow-IsSparse :
      (mem : Allocator) {n : ℕ} (t : HashSetSequential T) {b : Bool}
      → IsValid t
      → n ≤ length t.table * 3 / 4
      → t.set_size ≤ n + 1
      → (grow mem t).1 ≡ returns b
      → IsSparse (grow mem t).0
  unfolding grow resize policy
  grow-IsSparse mem t v sparse step h = elim (Bool-cases (policy t)) [
    | inl over ↦ elim (Bool-cases (mem.fits (2 * length t.table % word))) [
      | inl fits ↦ elim (Bool-cases (refilled mem t.table)) [
        | inr some_left ↦ ground arith
        | inl all ↦
            rw
              (
                over,
                fits,
                all,
                (rehash-SameContents (2 * length t.table % word) v.is_placed
                    (omega (arith, v.small, v.is_placed.roomy))).is_placed.width,
              )
              (omega (arith, v.small, v.is_placed.roomy))
      ]
      | inr full ↦ ground arith
    ]
    | inr under ↦ rw under (omega (arith, ltb→le _ _ (unfold policy in under), v.small))
  ]

  -- An Add of a valid sequential set that returns keeps at most three elements to four buckets, if
  -- there were no more before.
  pub add-IsSparse :
      (mem : Allocator) (x : T) {s : HashSetSequential T} {b : Bool}
      → IsValid s
      → IsSparse s
      → (add mem x s).1 ≡ returns b
      → IsSparse (add mem x s).0
  unfolding add bucket_index
  add-IsSparse mem x {s} v sparse h = elim (Bool-cases (contains x s)) [
    | inl present ↦ unfold contains bucket_index in rw present sparse
    | inr absent ↦ elim (Bool-cases mem.appends) [
      | inl room ↦
          let u = push-Changes v x absent in
          unfold contains bucket_index in
          simp (absent, room)
            (grow-IsSparse mem {n = s.set_size} _ u.holds (rw length-set sparse) (omega arith)
              (simp (absent, room) at h))
      | inr full ↦ unfold contains bucket_index in simp (absent, full) sparse
    ]
  ]

  -- The constructor of the sequential set makes a valid empty set of at least one bucket and no
  -- load, if that can be allocated.
  pub new-IsValid :
      (mem : Allocator) (initial_capacity : ℕ)
      → mem.fits (max 1 initial_capacity) ≡ true
      → (s : HashSetSequential T) × (new mem initial_capacity ≡ returns s)
        × IsValid s
        × IsSparse s
        × ((x : T) → contains x s ≡ false)
        × (length s.table ≡ max 1 initial_capacity)
  unfolding new
  new-IsValid mem initial_capacity fits = (
    record { table = replicate (max 1 initial_capacity) []; set_size = 0 },
    rw fits,
    rw (length-replicate {A = List T} (max 1 initial_capacity) [])
        (empty-HoldsSet _ (omega arith) (mem.fits_small _ fits)),
    omega arith,
    λ x.
        unfold contains bucket_index in
        rw (length-replicate {A = List T} (max 1 initial_capacity) [])
          (empty-member (max 1 initial_capacity) x),
    length-replicate (max 1 initial_capacity) [],
  )
