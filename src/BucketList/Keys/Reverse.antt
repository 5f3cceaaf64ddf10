-- ===== src/BucketList/Keys/Reverse.antt =====
-- `ReverseBits` of src/BucketList.h, against the reversal of a number's digits one by one.
use Prim.Native.Nat.{bit_and}
use native.Mathlib.Nat.{pow-suc, mod-one}
use concurrent_hash_sets.Base.{
  ℕ, zero, suc, ◌+◌, ◌*◌, ◌/◌, ◌%◌, ◌^◌, ◌<◌, ◌≡◌, refl, sym, ◌∙◌, ap, true, ◌==◌, ==_iff, arith,
}
use concurrent_hash_sets.Element.{word}
use concurrent_hash_sets.Bits.Digits.{pow-add, and-mask}
use concurrent_hash_sets.BucketList.Keys.{swap_groups, byteswap, reverse_bits}
use concurrent_hash_sets.BucketList.Keys.Reversed.{
  reversed, same_width, reversed-lt, reversed-add, reversed-mod,
}
use concurrent_hash_sets.BucketList.Keys.Swaps.{
  all_below, all_below_sound, mask, Groups, swap_bytes, swap_byte, swap_byte-lt, checks_1, checks_2,
  checks_4, Groups-1, Groups-2, Groups-4, byte_checks, left_part, swap_bytes-suc,
}

-- the three swaps, on `k` bytes and in one
abbrev swaps : ℕ → ℕ → ℕ
swaps k n = swap_bytes 16 0x0F k (swap_bytes 4 0x33 k (swap_bytes 2 0x55 k n))

abbrev byte_swaps : ℕ → ℕ
byte_swaps b = swap_byte 16 0x0F (swap_byte 4 0x33 (swap_byte 2 0x55 b))

byte_table : all_below 256 (λ b. byte_swaps b == reversed 8 b) ≡ true
unfolding all_below swap_byte reversed
byte_table = refl

module _ (p m : ℕ) (g : Groups p m) (h : byte_checks p m ≡ true) (k n b r : ℕ) (small : b < 256)
    (e : n ≡ b + r * 256) where
  -- a swap byte by byte
  swap_next : swap_bytes p m (suc k) n ≡ swap_byte p m b + swap_bytes p m k r * 256
  swap_next =
      let low : n % 256 ≡ b = omega (arith, e) in
      let high : n / 256 ≡ r = omega (arith, e) in rw (low, high) at (swap_bytes-suc p m g k n)

swaps-suc : (k n : ℕ) → swaps (suc k) n ≡ reversed 8 (n % 256) + swaps k (n / 256) * 256
swaps-suc k n =
    let b = n % 256 in
    let l₁ = swap_byte-lt 2 0x55 b checks_1 (omega arith) in
    let l₂ = swap_byte-lt 4 0x33 (swap_byte 2 0x55 b) checks_2 l₁ in
    let e₁ = swap_next 2 0x55 Groups-1 checks_1 k n b (n / 256) (omega arith) (omega arith) in
    let e₂ = swap_next 4 0x33 Groups-2 checks_2 k _ _ _ l₁ e₁ in
    let e₃ = swap_next 16 0x0F Groups-4 checks_4 k _ _ _ l₂ e₂ in
    let t : byte_swaps b ≡ reversed 8 b =
      (==_iff _ _).0
        (all_below_sound 256 (λ b. byte_swaps b == reversed 8 b) b byte_table (omega arith)) in
    omega (arith, e₃, t)

pow_bytes : (k : ℕ) → 256 ^ k ≡ 2 ^ (8 * k)
pow_bytes zero = refl
pow_bytes (suc k) =
    let e : 2 ^ (8 * suc k) ≡ 2 ^ (8 + 8 * k) = ap (λ (t : ℕ). 2 ^ t) (omega arith) in
    omega (arith, e, pow-add 8 (8 * k), pow-suc 256 k, pow_bytes k)

byteswap-swaps : (k n : ℕ) → byteswap k (swaps k n) ≡ reversed (8 * k) n
unfolding byteswap
byteswap-swaps zero n = unfold reversed in refl
byteswap-swaps (suc k) n =
    let b = reversed 8 (n % 256) in
    let l = reversed-lt 8 (n % 256) in
    let low : swaps (suc k) n % 256 ≡ b = omega (arith, swaps-suc k n, l) in
    let high : swaps (suc k) n / 256 ≡ swaps k (n / 256) = omega (arith, swaps-suc k n, l) in
    let split : reversed (8 * suc k) n ≡ reversed 8 n * 2 ^ (8 * k) + reversed (8 * k) (n / 256) =
      same_width (8 * suc k) (8 + 8 * k) n (omega arith) ∙ reversed-add 8 (8 * k) n in
    rw (low, high, split, pow_bytes k, byteswap-swaps k (n / 256), reversed-mod 8 n) refl

module _ (s p m : ℕ) (g : Groups p m) (e : p ≡ 2 ^ s) where
  -- what goes left stays in its bytes
  left_bound : (k n : ℕ) → bit_and n (mask m k) * p < 256 ^ k
  unfolding mask
  left_bound zero n = let z : bit_and n 0 ≡ 0 = and-mask 0 n ∙ mod-one n in rw z (omega arith)
  left_bound (suc k) n = omega (
    arith,
    left_part p m g k n,
    g.left-lt (n % 256) (omega arith),
    left_bound k (n / 256),
    pow-suc 256 k,
  )

  swap_groups-bytes : (n : ℕ) → swap_groups s (mask m 8) n ≡ swap_bytes p m 8 n
  unfolding swap_bytes
  swap_groups-bytes n =
      let b = bit_and n (mask m 8) in
      let shift : b * 2 ^ s ≡ b * p = ap (λ (t : ℕ). b * t) (sym e) in
      let fits : b * 2 ^ s % word ≡ b * p = omega (arith, shift, left_bound 8 n) in
      rw (fits, e) refl

-- ReverseBits, by masks, shifts and a swap of bytes, gives the number with the lowest 64 binary
-- digits of its argument in the opposite order.
pub reverse_bits_lem : (n : ℕ) → reverse_bits n ≡ reversed 64 n
unfolding reverse_bits mask
reverse_bits_lem n =
    rw
      (
        swap_groups-bytes 1 2 0x55 Groups-1 refl,
        swap_groups-bytes 2 4 0x33 Groups-2 refl,
        swap_groups-bytes 4 16 0x0F Groups-4 refl,
      )
      (byteswap-swaps 8 n)
