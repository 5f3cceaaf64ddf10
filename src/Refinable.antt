-- ===== src/Refinable.antt =====
-- src/HashSetRefinable.h: a mutex for each bucket, in an arena that grows with the table. Each
-- method is run from its call to its return with no other thread in between.
pub mod Arena
pub mod Places
pub mod Laws
pub mod Grow
pub mod New
pub mod Stuck
use concurrent_hash_sets.Base.{
  ℕ, zero, suc, ◌+◌, ◌*◌, ◌%◌, Bool, true, false, not, ◌&&◌, ◌==◌, List, [], ◌∷◌, Option, none,
  some, get_or, set, replicate, ltb, if◌then◌else◌,
}
use concurrent_hash_sets.Element.{Element, word}
use concurrent_hash_sets.Outcome.{
  Outcome, returns, throws, allocation_failed, Allocator, then_return,
}
use concurrent_hash_sets.Word.{add_word, sub_word}
use concurrent_hash_sets.Bucket.{has, erase, push_back}
use concurrent_hash_sets.Table.{Table, home, bucket_at, rehash, refilled, spoil}
use concurrent_hash_sets.Locked
use concurrent_hash_sets.Locked.{Locked}
use concurrent_hash_sets.Refinable.Arena.{
  max_blocks, validated_shift, block_index, block_offset, block_size,
}

-- `arena` lists for each block its number of mutexes, or nothing while it is a null pointer.
pub record HashSetRefinable (T : Type 0) : Type 0 where
  pub core : Locked T
  pub open core use *
  pub initial_shift : ℕ
  pub arena : List (Option ℕ)
  pub resizing : Bool

-- A failed assertion, or a thread that still spins when its rounds are used up.
pub data Run {ℓ} (A : Type ℓ) : Type ℓ where
  done : A → Run A
  assertion_failed : Run A
  spinning : Run A

infixl 5 ◌>>=◌ ◌>>◌
abbrev pub ◌>>=◌ {ℓ κ} : {A : Type ℓ} {B : Type κ} → Run A → (A → Run B) → Run B
done a >>= f = f a
assertion_failed >>= f = assertion_failed
spinning >>= f = spinning

abbrev pub ◌>>◌ {ℓ κ} : {A : Type ℓ} {B : Type κ} → Run A → Run B → Run B
m >> n = m >>= λ _. n

module _ {T : Type 0} where
  -- `EnlargeMutexArena`; the allocator is asked for the mutexes as it is for buckets
  unfoldable pub enlarge_mutex_arena :
      Allocator → ℕ → HashSetRefinable T → Run (HashSetRefinable T × Outcome (Unit {0}))
  enlarge_mutex_arena mem block s = elim (get_or s.arena block none) [
    | some n ↦ assertion_failed
    | none ↦
        let size = block_size s.initial_shift block in
        (if mem.fits size
          then done (record s { arena = set s.arena block (some size) }, returns tt)
          else done (s, throws allocation_failed))
  ]

  -- `GetMutex`, as the place of the mutex in the arena
  unfoldable pub get_mutex : HashSetRefinable T → ℕ → Run (ℕ × ℕ)
  get_mutex s index =
      let block = block_index s.initial_shift index in
      let offset = block_offset s.initial_shift index in
      elim (get_or s.arena block none) [
        | none ↦ assertion_failed
        | some n ↦
            (if ltb offset (block_size s.initial_shift block)
              then done (block, offset)
              else assertion_failed)
      ]

  -- `Quiesce`: the mutexes of `rounds` indices from `index` on, locked and released one by one
  unfoldable pub quiesce : HashSetRefinable T → ℕ → ℕ → Run (Unit {0})
  quiesce s zero index = done tt
  quiesce s (suc rounds) index =
      let rest = quiesce s rounds (index + 1) in get_mutex s index >> rest

  unfoldable pub new : Allocator → ℕ → Run (Outcome (HashSetRefinable T))
  new mem initial_capacity = elim (validated_shift initial_capacity) [
    | throws c ↦ done (throws c)
    | returns shift ↦
        (if mem.fits initial_capacity
          then (do
            (s, o) ← enlarge_mutex_arena mem 0 (record {
              core = record {
                table = replicate initial_capacity [];
                capacity = initial_capacity;
                set_size = 0;
              };
              initial_shift = shift;
              arena = replicate max_blocks none;
              resizing = false;
            })
            done (then_return (s, o) s).1)
          else done (throws allocation_failed))
  ]

-- `RefinableScopedLock`: the hash that its constructor writes to the caller's variable, and the
-- place in the arena of the mutex that it holds.
pub record ScopedLock : Type 0 where
  pub hash : ℕ
  pub elem_lock : ℕ × ℕ

module _ {T : Type 0} ⦃e : Element T⦄ where
  -- The constructor of `RefinableScopedLock`. A round of the inner loop and a retry of the outer
  -- one both use up fuel.
  unfoldable pub scoped_lock : ℕ → T → HashSetRefinable T → Run ScopedLock
  scoped_lock zero x s = spinning
  scoped_lock (suc fuel) x s =
      let again = scoped_lock fuel x s in
      if s.resizing then again else (do
        let old_capacity = s.capacity
        let hash = home x old_capacity
        elem_lock ← get_mutex s hash
        (if not s.resizing && s.capacity == old_capacity
            then done (record { hash = hash; elem_lock = elem_lock })
            else again))

  -- `GetBucket(hash)`
  unfoldable pub get_bucket : ℕ → HashSetRefinable T → List T
  get_bucket hash s = bucket_at s.table hash

  -- The section of `Add`, in the bucket of the hash: whether the element was absent, and is in now.
  unfoldable pub insert_at :
      Allocator → ℕ → T → HashSetRefinable T → HashSetRefinable T × Outcome Bool
  insert_at mem hash x s =
      if has x (get_bucket hash s)
      then (s, returns false)
      else (if mem.appends
          then (
            record s {
              core = record s.core {
                table = set s.table hash (push_back (get_bucket hash s) x);
                set_size = add_word s.set_size 1;
              };
            },
            returns true,
          )
          else (s, throws allocation_failed))

  -- The section of `Remove`.
  unfoldable pub remove_at : ℕ → T → HashSetRefinable T → HashSetRefinable T × Bool
  remove_at hash x s =
      if has x (get_bucket hash s)
      then (
        record s {
          core = record s.core {
            table = set s.table hash (erase x (get_bucket hash s));
            set_size = sub_word s.set_size 1;
          };
        },
        true,
      )
      else (s, false)

  -- `Resize` from the new table on. Only its normal end clears `resizing_`.
  unfoldable pub fill_new_table :
      Allocator → HashSetRefinable T → HashSetRefinable T × Outcome (Unit {0})
  fill_new_table mem s =
      let new_capacity = 2 * s.capacity % word in
      if mem.fits new_capacity
      then (if refilled mem s.table
          then (
            record s {
              core = record {
                table = rehash new_capacity s.table;
                capacity = new_capacity;
                set_size = s.set_size;
              };
              resizing = false;
            },
            returns tt,
          )
          else (
            record s { core = record s.core { table = spoil mem.refills s.table } },
            throws allocation_failed,
          ))
      else (s, throws allocation_failed)

  -- `Resize`. An exception leaves the function as it stands, with `resizing_` set.
  unfoldable pub resize :
      Allocator → HashSetRefinable T → Run (HashSetRefinable T × Outcome (Unit {0}))
  resize mem s =
      if s.resizing
      then done (s, returns tt)
      else (if Locked.policy s.core
          then (do
            let busy : HashSetRefinable T = record s { resizing = true }
            quiesce busy s.capacity 0
            (grown, o) ← enlarge_mutex_arena mem (block_index s.initial_shift s.capacity) busy
            elim o [
              | throws c ↦ done (grown, throws c)
              | returns _ ↦ done (fill_new_table mem grown)
            ])
          else done (s, returns tt))

  -- `Policy()` and `Resize()` at the end of `Add`
  unfoldable pub grow : Allocator → HashSetRefinable T → Run (HashSetRefinable T × Outcome Bool)
  grow mem s =
      if Locked.policy s.core
      then (do r ← resize mem s; done (then_return r true))
      else done (s, returns true)

  -- what follows the section of `Add`, once its lock is released
  unfoldable pub finish_add :
      Allocator → HashSetRefinable T × Outcome Bool → Run (HashSetRefinable T × Outcome Bool)
  finish_add mem (t, throws c) = done (t, throws c)
  finish_add mem (t, returns false) = done (t, returns false)
  finish_add mem (t, returns true) = grow mem t

  unfoldable pub add :
      ℕ → Allocator → T → HashSetRefinable T → Run (HashSetRefinable T × Outcome Bool)
  add fuel mem x s = do lock ← scoped_lock fuel x s; finish_add mem (insert_at mem lock.hash x s)

  unfoldable pub remove : ℕ → T → HashSetRefinable T → Run (HashSetRefinable T × Bool)
  remove fuel x s = do lock ← scoped_lock fuel x s; done (remove_at lock.hash x s)

  unfoldable pub contains : ℕ → T → HashSetRefinable T → Run Bool
  contains fuel x s = do lock ← scoped_lock fuel x s; done (has x (get_bucket lock.hash s))

  unfoldable pub size : HashSetRefinable T → ℕ
  size s = s.set_size
