-- ===== src/Sequential.antt =====
-- src/HashSetSequential.h: the set without locks, the reference for the concurrent ones.
pub mod Laws
pub mod Implements
pub mod Results
use concurrent_hash_sets.Base.{
  ℕ, ◌*◌, ◌/◌, ◌%◌, ◌^◌, max, Bool, true, false, List, [], length, set, replicate, ltb,
  if◌then◌else◌,
}
use concurrent_hash_sets.Element.{Element, word}
use concurrent_hash_sets.Outcome.{
  Outcome, returns, throws, allocation_failed, Allocator, then_return,
}
use concurrent_hash_sets.Word.{add_word, sub_word}
use concurrent_hash_sets.Bucket.{has, erase, push_back}
use concurrent_hash_sets.Table.{Table, home, bucket_at, rehash, refilled, spoil}

pub record HashSetSequential (T : Type 0) : Type 0 where
  pub table : Table T
  pub set_size : ℕ

abbrev pub load_factor_numerator : ℕ
load_factor_numerator = 3

abbrev pub load_factor_denominator : ℕ
load_factor_denominator = 4

module _ {T : Type 0} ⦃e : Element T⦄ where
  -- the constructor
  pub new : Allocator → ℕ → Outcome (HashSetSequential T)
  new mem initial_capacity =
      let n = max 1 initial_capacity in
      if mem.fits n
      then returns (record { table = replicate n []; set_size = 0 })
      else throws allocation_failed

  pub policy : HashSetSequential T → Bool
  policy s =
      ltb (length s.table * load_factor_numerator % word / load_factor_denominator) s.set_size

  -- `Resize`. The set is left alone if the new table cannot be made; where a `push_back` is refused,
  -- the elements before it have been moved out of the table.
  pub resize : Allocator → HashSetSequential T → HashSetSequential T × Outcome (Unit {0})
  resize mem s =
      let new_capacity = 2 * length s.table % word in
      if mem.fits new_capacity
      then (if refilled mem s.table
          then (record s { table = rehash new_capacity s.table }, returns tt)
          else (record s { table = spoil mem.refills s.table }, throws allocation_failed))
      else (s, throws allocation_failed)

  -- `GetBucket`, as the index of the bucket that the reference stands for
  unfoldable pub bucket_index : T → HashSetSequential T → ℕ
  bucket_index x s = home x (length s.table)

  -- the end of `Add`: an exception of `Resize` leaves `Add` too
  pub grow : Allocator → HashSetSequential T → HashSetSequential T × Outcome Bool
  unfolding policy resize
  grow mem s = if policy s then then_return (resize mem s) true else (s, returns true)

  pub add : Allocator → T → HashSetSequential T → HashSetSequential T × Outcome Bool
  unfolding bucket_index
  add mem x s =
      let i = bucket_index x s in
      let bucket = bucket_at s.table i in
      if has x bucket
      then (s, returns false)
      else (if mem.appends
          then grow mem (record {
            table = set s.table i (push_back bucket x);
            set_size = add_word s.set_size 1;
          })
          else (s, throws allocation_failed))

  pub remove : T → HashSetSequential T → HashSetSequential T × Bool
  unfolding bucket_index
  remove x s =
      let i = bucket_index x s in
      let bucket = bucket_at s.table i in
      if has x bucket
      then (
        record { table = set s.table i (erase x bucket); set_size = sub_word s.set_size 1 },
        true,
      )
      else (s, false)

  pub contains : T → HashSetSequential T → Bool
  unfolding bucket_index
  contains x s = has x (bucket_at s.table (bucket_index x s))

  pub size : HashSetSequential T → ℕ
  size s = s.set_size
