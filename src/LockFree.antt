-- ===== src/LockFree.antt =====
-- The capacities of src/HashSetLockFree.h: the checks of its constructor, the parent of a bucket,
-- and `ResizeIfNecessary`. The buckets themselves are not modelled.
pub mod Capacity
pub mod Parent
pub mod Sentinels
use Prim.Native.Nat.{bit_and}
use concurrent_hash_sets.Base.{
  ℕ, ◌+◌, ◌-◌, ◌*◌, ◌/◌, ◌%◌, ◌^◌, Bool, true, false, not, ◌&&◌, ◌==◌, ltb, if◌then◌else◌,
}
use concurrent_hash_sets.Element.{word, word_bits}
use concurrent_hash_sets.Outcome.{Outcome, returns, throws, invalid_argument}
use concurrent_hash_sets.Word.{sub_word}
use concurrent_hash_sets.Bits.{bit_floor}
use concurrent_hash_sets.Sequential.{load_factor_numerator, load_factor_denominator}

-- `(n - 1) & n`, as a condition
abbrev pub more_bits : ℕ → Bool
more_bits n = not (bit_and (sub_word n 1) n == 0)

-- `BucketList<T>::kMaxBuckets`
abbrev pub max_buckets : ℕ
max_buckets = 2 ^ (word_bits - 2) - 1 + 1

-- the checks of the constructor, in their order
unfoldable pub check_capacities : ℕ → ℕ → Outcome (Unit {0})
check_capacities initial_capacity max_capacity =
    if ltb initial_capacity 2
    then throws invalid_argument
    else (if more_bits initial_capacity
        then throws invalid_argument
        else (if more_bits max_capacity
            then throws invalid_argument
            else (if ltb max_capacity initial_capacity
                then throws invalid_argument
                else (if ltb max_buckets max_capacity
                    then throws invalid_argument
                    else returns tt))))

-- `GetParentIndex`
unfoldable pub parent_index : ℕ → ℕ
parent_index index = sub_word index (bit_floor index)

-- `ResizeIfNecessary`, with the capacity and the size that it loads, and `now`, the capacity at its
-- compare-and-exchange: the capacity afterwards
unfoldable pub resize_if_necessary : (max_capacity capacity set_size now : ℕ) → ℕ
resize_if_necessary max_capacity capacity set_size now =
    if ltb capacity max_capacity
      && ltb (capacity * load_factor_numerator % word / load_factor_denominator) set_size
    then (if now == capacity then capacity * 2 % word else now)
    else now
