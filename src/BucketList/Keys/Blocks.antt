-- ===== src/BucketList/Keys/Blocks.antt =====
-- `&` and `|` on a block of digits and on the digits above it.
use Prim.Native.Nat.{bit_and, bit_or}
use native.Mathlib.Nat.{pow-suc, mod-one, div-one, div-div-eq-div-mul}
use concurrent_hash_sets.Base.{ℕ, zero, suc, ◌+◌, ◌*◌, ◌/◌, ◌%◌, ◌^◌, ◌≡◌, ◌∙◌, ap, arith}
use concurrent_hash_sets.Bits.Digits.{and_digit, or_digit, zero-and, zero-or, mod-double, pow-pos}

module _ (a s : ℕ) where
  half_mod : a % 2 ^ suc s / 2 ≡ a / 2 % 2 ^ s
  half_mod =
      omega
        (arith, pow-suc 2 s, ap (λ (t : ℕ). a % t) (pow-suc 2 s), mod-double a (2 ^ s) (pow-pos s))

  low_mod : a % 2 ^ suc s % 2 ≡ a % 2
  low_mod = omega (arith, ap (λ (t : ℕ). a % t) (pow-suc 2 s), mod-double a (2 ^ s) (pow-pos s))

  half_div : a / 2 / 2 ^ s ≡ a / 2 ^ suc s
  half_div = div-div-eq-div-mul a 2 (2 ^ s) ∙ ap (λ (t : ℕ). a / t) (omega (arith, pow-suc 2 s))

pub and_block :
    (s a b : ℕ)
    → bit_and a b ≡ bit_and (a % 2 ^ s) (b % 2 ^ s) + bit_and (a / 2 ^ s) (b / 2 ^ s) * 2 ^ s
and_block zero a b = rw (mod-one, mod-one, div-one, div-one) (omega (arith, zero-and 0))
and_block (suc s) a b =
    let low = and_digit (a % 2 ^ suc s) (b % 2 ^ suc s) in
    let low' = rw (half_mod a s, half_mod b s, low_mod a s, low_mod b s) at low in
    let rest = rw (half_div a s, half_div b s) at (and_block s (a / 2) (b / 2)) in
    omega (
      arith,
      and_digit a b,
      low',
      rest,
      ap (λ (t : ℕ). bit_and (a / 2 ^ suc s) (b / 2 ^ suc s) * t) (pow-suc 2 s),
    )

pub or_block :
    (s a b : ℕ)
    → bit_or a b ≡ bit_or (a % 2 ^ s) (b % 2 ^ s) + bit_or (a / 2 ^ s) (b / 2 ^ s) * 2 ^ s
or_block zero a b = rw (mod-one, mod-one, div-one, div-one) (omega (arith, zero-or 0))
or_block (suc s) a b =
    let low = or_digit (a % 2 ^ suc s) (b % 2 ^ suc s) in
    let low' = rw (half_mod a s, half_mod b s, low_mod a s, low_mod b s) at low in
    let rest = rw (half_div a s, half_div b s) at (or_block s (a / 2) (b / 2)) in
    omega (
      arith,
      or_digit a b,
      low',
      rest,
      ap (λ (t : ℕ). bit_or (a / 2 ^ suc s) (b / 2 ^ suc s) * t) (pow-suc 2 s),
    )
