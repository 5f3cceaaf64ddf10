-- ===== src/BucketList/Keys.antt =====
-- The keys by which src/BucketList.h sorts its nodes.
pub mod Blocks
pub mod Reversed
pub mod Swaps
pub mod Reverse
pub mod Order
use Prim.Native.Nat.{bit_and, bit_or}
use concurrent_hash_sets.Base.{ℕ, zero, suc, ◌+◌, ◌-◌, ◌*◌, ◌/◌, ◌%◌, ◌^◌}
use concurrent_hash_sets.Element.{Element, word, word_bits}
use concurrent_hash_sets.Bits.{shift_right, shift_left}

-- `((n >> s) & m) | ((n & m) << s)`
abbrev pub swap_groups : ℕ → ℕ → ℕ → ℕ
swap_groups s m n = bit_or (bit_and (shift_right n s) m) (shift_left (bit_and n m) s)

-- `std::byteswap`, on `bytes` bytes
unfoldable pub byteswap : ℕ → ℕ → ℕ
byteswap zero n = 0
byteswap (suc bytes) n = n % 256 * 256 ^ bytes + byteswap bytes (n / 256)

-- `detail::ReverseBits`
unfoldable pub reverse_bits : ℕ → ℕ
reverse_bits n =
    let a = swap_groups 1 0x5555555555555555 n in
    let b = swap_groups 2 0x3333333333333333 a in
    let c = swap_groups 4 0x0F0F0F0F0F0F0F0F b in byteswap 8 c

-- `kKeyMask`
abbrev pub key_mask : ℕ
key_mask = 2 ^ (word_bits - 2) - 1

-- `kTailKey`
abbrev pub tail_key : ℕ
tail_key = word - 1

-- `kOrdinaryKeyBit`
abbrev pub ordinary_key_bit : ℕ
ordinary_key_bit = 2 ^ (word_bits - 1)

-- `MakeSentinelKey`
unfoldable pub make_sentinel_key : ℕ → ℕ
make_sentinel_key code = reverse_bits (bit_and code key_mask)

module _ {T : Type 0} ⦃e : Element T⦄ where
  -- `MakeOrdinaryKey`
  unfoldable pub make_ordinary_key : T → ℕ
  make_ordinary_key elem = reverse_bits (bit_or (bit_and (e.hash elem) key_mask) ordinary_key_bit)
