-- ===== src/Locked.antt =====
-- The data members `table_`, `capacity_` and `set_size_`, which src/HashSetCoarseGrained.h,
-- src/HashSetStriped.h and src/HashSetRefinable.h have in common, and the code of the critical
-- sections of the first two, which differ in the mutexes that are held around a section. The third
-- finds its bucket by the hash of its lock: its sections are in Refinable. Lines are of the first
-- file.
pub mod Laws
use concurrent_hash_sets.Base.{
  ℕ, ◌*◌, ◌/◌, ◌%◌, Bool, true, false, List, [], set, ltb, if◌then◌else◌,
}
use concurrent_hash_sets.Element.{Element, word}
use concurrent_hash_sets.Outcome.{Outcome, returns, throws, allocation_failed, Allocator}
use concurrent_hash_sets.Word.{add_word, sub_word}
use concurrent_hash_sets.Bucket.{has, erase, push_back}
use concurrent_hash_sets.Table.{Table, home, bucket_at, rehash, refilled, spoil}
use concurrent_hash_sets.Sequential.{load_factor_numerator, load_factor_denominator}

pub record Locked (T : Type 0) : Type 0 where
  pub table : Table T
  pub capacity : ℕ
  pub set_size : ℕ

-- the test of `Policy`, on the two values that it loads
abbrev pub over_load : ℕ → ℕ → Bool
over_load capacity set_size =
    ltb (capacity * load_factor_numerator % word / load_factor_denominator) set_size

module _ {T : Type 0} ⦃e : Element T⦄ where
  -- `GetBucket`, as the index of the bucket that the reference stands for
  unfoldable pub bucket_index : T → Locked T → ℕ
  bucket_index x s = home x s.capacity

  -- the bucket of an element
  unfoldable pub bucket : T → Locked T → List T
  unfolding bucket_index
  bucket x s = bucket_at s.table (bucket_index x s)

  -- `bucket.push_back(std::move(elem))` that gets its memory, with the vector written back
  unfoldable pub push : T → Locked T → Locked T
  unfolding bucket_index bucket
  push x s = record s { table = set s.table (bucket_index x s) (push_back (bucket x s) x) }

  -- `bucket.erase(it)`
  unfoldable pub drop : T → Locked T → Locked T
  unfolding bucket_index bucket
  drop x s = record s { table = set s.table (bucket_index x s) (erase x (bucket x s)) }

  -- `set_size_.fetch_add(1, std::memory_order_relaxed)`
  unfoldable pub count_up : Locked T → Locked T
  count_up s = record s { set_size = add_word s.set_size 1 }

  -- `set_size_.fetch_sub(1, std::memory_order_relaxed)`
  unfoldable pub count_down : Locked T → Locked T
  count_down s = record s { set_size = sub_word s.set_size 1 }

  -- The section at the head of `Add` when its `push_back` gets the memory: whether the element was
  -- absent, and is now in its bucket.
  unfoldable pub insert : T → Locked T → Locked T × Bool
  insert x s = if has x (bucket x s) then (s, false) else (count_up (push x s), true)

  -- The section at the head of `Add`, which the exception of `push_back` leaves before the count.
  unfoldable pub add_section : Allocator → T → Locked T → Locked T × Outcome Bool
  add_section mem x s =
      if has x (bucket x s)
      then (s, returns false)
      else (if mem.appends
          then (count_up (push x s), returns true)
          else (s, throws allocation_failed))

  -- The section of `Remove`.
  unfoldable pub remove : T → Locked T → Locked T × Bool
  remove x s = if has x (bucket x s) then (count_down (drop x s), true) else (s, false)

  -- The section of `Contains`.
  unfoldable pub contains : T → Locked T → Bool
  unfolding bucket
  contains x s = has x (bucket x s)

  unfoldable pub policy : Locked T → Bool
  policy s = over_load s.capacity s.set_size

  -- The rest of `Resize` after its own test of `Policy`.
  unfoldable pub enlarge : Allocator → Locked T → Locked T × Outcome (Unit {0})
  enlarge mem s =
      let new_capacity = 2 * s.capacity % word in
      if mem.fits new_capacity
      then (if refilled mem s.table
          then (
            record s { table = rehash new_capacity s.table; capacity = new_capacity },
            returns tt,
          )
          else (record s { table = spoil mem.refills s.table }, throws allocation_failed))
      else (s, throws allocation_failed)

  -- The section of `Resize`.
  unfoldable pub resize : Allocator → Locked T → Locked T × Outcome (Unit {0})
  resize mem s = if policy s then enlarge mem s else (s, returns tt)
