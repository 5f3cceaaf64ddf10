-- ===== src/Bits.antt =====
-- The bit operations of C++ and of its header <bit>, on values of `std::size_t`.
pub mod Digits
pub mod Powers
pub mod Width
use concurrent_hash_sets.Base.{
  ℕ, zero, suc, ◌+◌, ◌-◌, ◌*◌, ◌/◌, ◌%◌, ◌^◌, Bool, true, false, ◌==◌, if◌then◌else◌,
}
use concurrent_hash_sets.Element.{word_bits, word}

-- `x >> k`
abbrev pub shift_right : ℕ → ℕ → ℕ
shift_right x k = x / 2 ^ k

-- `x << k`, which drops what leaves the word
abbrev pub shift_left : ℕ → ℕ → ℕ
shift_left x k = x * 2 ^ k % word

-- the digits of a number, up to a bound on their number
unfoldable pub width_within : ℕ → ℕ → ℕ
width_within zero x = 0
width_within (suc f) x = let rest = suc (width_within f (x / 2)) in if x == 0 then 0 else rest

-- `std::bit_width(x)`
unfoldable pub bit_width : ℕ → ℕ
bit_width x = width_within word_bits x

-- `std::bit_floor(x)`, the largest power of two that is not above `x`
unfoldable pub bit_floor : ℕ → ℕ
bit_floor x = if x == 0 then 0 else 2 ^ (bit_width x - 1)

unfoldable pub zeros_within : ℕ → ℕ → ℕ
zeros_within zero x = 0
zeros_within (suc f) x = let rest = suc (zeros_within f (x / 2)) in if x % 2 == 0 then rest else 0

-- `std::countr_zero(x)`, the number of zeros at the low end
unfoldable pub countr_zero : ℕ → ℕ
countr_zero x = zeros_within word_bits x
