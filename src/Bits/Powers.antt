-- ===== src/Bits/Powers.antt =====
-- The test `(x - 1) & x` of src/HashSetRefinable.h and src/HashSetLockFree.h.
use native.Mathlib.Nat.{pow-suc, pow-le-pow_right}
use Prim.Native.Nat.{bit_and}
use concurrent_hash_sets.Base.{
  ℕ, zero, suc, ◌-◌, ◌/◌, ◌%◌, ◌^◌, ◌≤◌, ◌<◌, ◌≡◌, ◌↔◌, refl, ap, arith, ℕ_discrete, dec_lt,
}
use concurrent_hash_sets.Element.{word_bits, word}
use concurrent_hash_sets.Bits.{zeros_within, countr_zero}
use concurrent_hash_sets.Bits.Digits.{and_digit, and_self, pow-pos}

pub and-pow_pred : (k : ℕ) → bit_and (2 ^ k - 1) (2 ^ k) ≡ 0
and-pow_pred zero = refl
and-pow_pred (suc k) =
    let a : (2 ^ suc k - 1) / 2 ≡ 2 ^ k - 1 = omega (arith, pow-suc 2 k, pow-pos k) in
    let b : 2 ^ suc k / 2 ≡ 2 ^ k = omega (arith, pow-suc 2 k) in
    let half : bit_and ((2 ^ suc k - 1) / 2) (2 ^ suc k / 2) ≡ 0 = rw (a, b) (and-pow_pred k) in
    omega (arith, and_digit (2 ^ suc k - 1) (2 ^ suc k), half, pow-suc 2 k)

pow_below : (n x : ℕ) → x ≤ n → 0 < x → bit_and (x - 1) x ≡ 0 → (k : ℕ) × (x ≡ 2 ^ k)
pow_below zero x h pos e = absurd (omega arith)
pow_below (suc n) x h pos e = elim (ℕ_discrete (x % 2) 0) [
  | yes even ↦
      let half : (x - 1) / 2 ≡ x / 2 - 1 = omega arith in
      let (k, q) = pow_below n (x / 2) (omega arith) (omega arith) (rw half at (and_half even)) in
      (suc k, omega (arith, pow-suc 2 k))
  | no odd ↦
      let half : (x - 1) / 2 ≡ x / 2 = omega arith in
      (
        0,
        omega
            (arith, and_digit (x - 1) x, ap (λ (t : ℕ). bit_and t (x / 2)) half, and_self (x / 2)),
      )
]
  where
    and_half : x % 2 ≡ 0 → bit_and ((x - 1) / 2) (x / 2) ≡ 0
    and_half even = omega (arith, and_digit (x - 1) x)

-- `(x - 1) & x` is zero exactly for the powers of two.
pub and-pred_iff : (x : ℕ) → 0 < x → (bit_and (x - 1) x ≡ 0) ↔ ((k : ℕ) × (x ≡ 2 ^ k))
and-pred_iff x pos = (pow_below x x (omega arith) pos, λ p. rw p.1 (and-pow_pred p.0))

zeros_within-pow : (f k : ℕ) → k < f → zeros_within f (2 ^ k) ≡ k
unfolding zeros_within
zeros_within-pow zero k h = absurd (omega arith)
zeros_within-pow (suc f) zero h = refl
zeros_within-pow (suc f) (suc k) h =
    let half : 2 ^ suc k / 2 ≡ 2 ^ k = omega (arith, pow-suc 2 k) in
    let even : 2 ^ suc k % 2 ≡ 0 = omega (arith, pow-suc 2 k) in
    rw (even, half) (ap suc (zeros_within-pow f k (omega arith)))

-- `std::countr_zero` of a power of two in a word is its exponent.
pub countr_zero-pow : (k : ℕ) → k < word_bits → countr_zero (2 ^ k) ≡ k
unfolding countr_zero
countr_zero-pow k h = zeros_within-pow word_bits k h

-- Which powers of two are in a word.
pub exponent-lt : (k : ℕ) → 2 ^ k < word → k < word_bits
exponent-lt k h = elim (dec_lt k word_bits) [
  | yes q ↦ q
  | no q ↦
      absurd (omega (arith, pow-le-pow_right {n = 2} (omega arith) {i = 64} {j = k} (omega arith)))
]
