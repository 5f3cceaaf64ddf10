-- ===== src/Striped/Locks.antt =====
-- The mutexes of src/HashSetStriped.h with any number of threads: a section under one mutex, and
-- `ScopedVectorLock`, which locks all in ascending order and unlocks them in the same order. What
-- the sections do to the table is left out.
pub mod Owners
pub mod Deadlock
use concurrent_hash_sets.Base.{
  ℕ, zero, suc, ◌≤◌, ◌<◌, ◌≡◌, ◌&&◌, Bool, true, false, ltb, leb, ◌==◌, Option, none, some, update,
}

pub data Pc : Type 0 where
  outside : Pc
  wanting : ℕ → Pc  -- before the `scoped_lock` of one mutex
  inside : ℕ → Pc
  locking : ℕ → Pc  -- `ScopedVectorLock`, before its round with this index
  resizing : Pc
  unlocking : ℕ → Pc  -- its destructor, before its round with this index

-- which mutexes a thread has locked, of `n`
abbrev pub holds : ℕ → Pc → ℕ → Bool
holds n outside j = false
holds n (wanting m) j = false
holds n (inside m) j = m == j
holds n (locking k) j = ltb j k
holds n resizing j = ltb j n
holds n (unlocking k) j = leb k j && ltb j n

pub record Locks : Type 0 where
  pub owner : ℕ → Option ℕ
  pub pc : ℕ → Pc

-- steps that touch no mutex
pub data Moves (n : ℕ) : Pc → Pc → Type 0 where
  call : {m : ℕ} → m < n → Moves n outside (wanting m)
  resize : Moves n outside (locking 0)
  all_locked : Moves n (locking n) resizing
  leave : Moves n resizing (unlocking 0)
  all_unlocked : Moves n (unlocking n) outside

-- steps that lock a mutex
pub data Acquires (n : ℕ) : Pc → ℕ → Pc → Type 0 where
  lock : {m : ℕ} → Acquires n (wanting m) m (inside m)
  lock_next : {k : ℕ} → k < n → Acquires n (locking k) k (locking (suc k))

-- steps that unlock one
pub data Releases (n : ℕ) : Pc → ℕ → Pc → Type 0 where
  unlock : {m : ℕ} → Releases n (inside m) m outside
  unlock_next : {k : ℕ} → k < n → Releases n (unlocking k) k (unlocking (suc k))

pub data Step (n : ℕ) (s : Locks) (i : ℕ) : Locks → Type 0 where
  move : {p : Pc} → Moves n (s.pc i) p → Step n s i (record s { pc = update s.pc i p })
  acquire :
      {m : ℕ} {p : Pc}
      → s.owner m ≡ none
      → Acquires n (s.pc i) m p
      → Step n s i (record { owner = update s.owner m (some i); pc = update s.pc i p })
  release :
      {m : ℕ} {p : Pc}
      → Releases n (s.pc i) m p
      → Step n s i (record { owner = update s.owner m none; pc = update s.pc i p })

abbrev pub at_first : Locks
at_first = record { owner = λ _. none; pc = λ _. outside }

pub data Reach (n : ℕ) : Locks → Type 0 where
  start : Reach n at_first
  later : {s t : Locks} (i : ℕ) → Reach n s → Step n s i t → Reach n t
