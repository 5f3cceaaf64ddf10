-- ===== src/Refinable/Arena.antt =====
-- The mutex arena of src/HashSetRefinable.h: block 0 holds the mutexes of the first buckets, and
-- block `b` those that the resize number `b` adds. `shift` is `initial_shift_`.
pub mod Laws
pub mod Mutexes
use Prim.Native.Nat.{bit_and}
use concurrent_hash_sets.Base.{ℕ, ◌+◌, ◌-◌, ltb, Bool, true, false, not, ◌==◌, if◌then◌else◌}
use concurrent_hash_sets.Element.{word, word_bits}
use concurrent_hash_sets.Outcome.{Outcome, returns, throws, invalid_argument}
use concurrent_hash_sets.Word.{sub_word}
use concurrent_hash_sets.Bits.{shift_right, shift_left, bit_width, bit_floor, countr_zero}

-- `kMaxBlocks`
abbrev pub max_blocks : ℕ
max_blocks = word_bits + 1

-- `ValidatedShift`
unfoldable pub validated_shift : ℕ → Outcome ℕ
validated_shift initial_capacity =
    if ltb initial_capacity 2
    then throws invalid_argument
    else (if bit_and (sub_word initial_capacity 1) initial_capacity == 0
        then returns (countr_zero initial_capacity)
        else throws invalid_argument)

unfoldable pub block_index : (shift index : ℕ) → ℕ
block_index shift index = bit_width (shift_right index shift)

unfoldable pub block_offset : (shift index : ℕ) → ℕ
block_offset shift index = sub_word index (shift_left (bit_floor (shift_right index shift)) shift)

unfoldable pub block_size : (shift block : ℕ) → ℕ
block_size shift block = shift_left 1 (if block == 0 then shift else sub_word ((shift + block)) 1)
