-- ===== src/Refinable/Laws.antt =====
-- The methods of src/HashSetRefinable.h, each run alone, and what a valid set is.
use concurrent_hash_sets.Base.{
  ℕ, zero, suc, ◌≡◌, refl, ◌∙◌, true, false, ◌==◌, arith, inl, inr, Bool-cases,
}
use concurrent_hash_sets.Element.{Element}
use concurrent_hash_sets.Outcome.{returns, Allocator}
use concurrent_hash_sets.Bucket.{has}
use concurrent_hash_sets.Table.{home, bucket_at}
use concurrent_hash_sets.Table.Place.{home-lt}
use concurrent_hash_sets.Table.Contents.{HoldsSet}
use concurrent_hash_sets.Locked
use concurrent_hash_sets.Locked.{Locked}
use concurrent_hash_sets.Locked.Laws.{Changes, remove-Changes, remove-result, remove-capacity}
use concurrent_hash_sets.Refinable.Arena.{block_index, block_offset}
use concurrent_hash_sets.Refinable.{
  HashSetRefinable, done, spinning, ScopedLock, scoped_lock, get_bucket, insert_at, remove_at,
  remove, contains,
}
use concurrent_hash_sets.Refinable.Places.{HasArena, get_mutex-done}

module _ {T : Type 0} ⦃e : Element T⦄ where
  pub record IsValid (rounds : ℕ) (s : HashSetRefinable T) : Type 0 where
    pub holds : HoldsSet s.capacity s.table s.set_size
    pub has_arena : HasArena rounds s
    pub idle : s.resizing ≡ false

  pub spins :
      (fuel : ℕ) (x : T) (s : HashSetRefinable T)
      → s.resizing ≡ true
      → scoped_lock fuel x s ≡ spinning
  unfolding scoped_lock
  spins zero x s h = refl
  spins (suc fuel) x s h = simp h (spins fuel x s h)

  module _ {rounds : ℕ} {s : HashSetRefinable T} (v : IsValid rounds s) (x : T) where
    -- The scoped lock of the element's bucket: its index in the table, and the mutex of that index.
    abbrev pub own_lock : ScopedLock
    own_lock = record {
      hash = home x s.capacity;
      elem_lock = (
        block_index s.initial_shift (home x s.capacity),
        block_offset s.initial_shift (home x s.capacity),
      );
    }

    pub scoped_lock-done : (fuel : ℕ) → scoped_lock (suc fuel) x s ≡ done own_lock
    unfolding scoped_lock
    scoped_lock-done fuel =
        let lock =
          get_mutex-done v.has_arena (home x s.capacity)
            (home-lt x s.capacity v.holds.is_placed.roomy) in
        let same : (s.capacity == s.capacity) ≡ true = ground arith in simp (v.idle, lock, same)

    -- the set while a resize is under way
    abbrev pub mid_resize : HashSetRefinable T
    mid_resize = record s { resizing = true }

    -- Contains of a valid refinable set takes the mutex of the element's own bucket, in one round
    -- and with no assertion failed, and answers whether the element is in that bucket; while a
    -- resize is under way it never gets past its lock.
    pub contains_lem :
        (fuel : ℕ)
        → (scoped_lock (suc fuel) x s ≡ done own_lock)
          × (contains (suc fuel) x s ≡ done (Locked.contains x s.core))
          × (contains (suc fuel) x mid_resize ≡ spinning)
    unfolding contains get_bucket Locked.contains Locked.bucket Locked.bucket_index
    contains_lem fuel =
        (scoped_lock-done fuel, rw (scoped_lock-done fuel), rw (spins (suc fuel) x mid_resize refl))

    -- A method of the set that left its members as `c` is over.
    pub set_core :
        {c : Locked T}
        → HoldsSet c.capacity c.table c.set_size
        → c.capacity ≡ s.capacity
        → IsValid rounds (record s { core = c })
    set_core h same = record {
      holds = h;
      has_arena = record {
        power = same ∙ v.has_arena.power;
        small = rw same v.has_arena.small;
        allocated = v.has_arena.allocated;
        unused = v.has_arena.unused;
        slots = v.has_arena.slots;
      };
      idle = v.idle;
    }

    -- With the hash of the lock, the section of `Remove` is the one that goes by the capacity.
    remove_at_own :
        remove_at (home x s.capacity) x s
        ≡ (record s { core = (Locked.remove x s.core).0 }, (Locked.remove x s.core).1)
    unfolding remove_at get_bucket Locked.remove Locked.bucket Locked.bucket_index Locked.count_down
        Locked.drop
    remove_at_own = elim (Bool-cases (has x (bucket_at s.table (home x s.capacity)))) [
      | inl q ↦ rw q
      | inr q ↦ rw q
    ]

    -- Remove of a valid refinable set takes the mutex of the element's own bucket, ends, answers
    -- whether the element was there, and leaves a valid set without it and with the others as
    -- before; while a resize is under way it never gets past its lock.
    pub remove_lem :
        (fuel : ℕ)
        → (t : HashSetRefinable T) × (scoped_lock (suc fuel) x s ≡ done own_lock)
          × (remove (suc fuel) x s ≡ done (t, Locked.contains x s.core))
          × (remove (suc fuel) x mid_resize ≡ spinning)
          × IsValid rounds t
          × Changes v.holds x false t.core
    unfolding remove
    remove_lem fuel =
        let u = remove-Changes v.holds x in
        (
          record s { core = (Locked.remove x s.core).0 },
          scoped_lock-done fuel,
          rw (scoped_lock-done fuel, remove_at_own, remove-result x s.core),
          rw (spins (suc fuel) x mid_resize refl),
          set_core u.holds (remove-capacity x s.core),
          u,
        )

    -- The section of `Add` when its `push_back` gets the memory
    pub insert_at-found :
        (mem : Allocator)
        → Locked.contains x s.core ≡ true
        → insert_at mem (home x s.capacity) x s ≡ (s, returns false)
    unfolding insert_at get_bucket Locked.contains Locked.bucket Locked.bucket_index
    insert_at-found mem q = rw q

    pub insert_at-new :
        (mem : Allocator)
        → Locked.contains x s.core ≡ false
        → mem.appends ≡ true
        → insert_at mem (home x s.capacity) x s
          ≡ (record s { core = (Locked.insert x s.core).0 }, returns true)
    unfolding insert_at get_bucket Locked.contains Locked.insert Locked.bucket Locked.bucket_index
        Locked.count_up Locked.push
    insert_at-new mem q room = rw (q, room)
