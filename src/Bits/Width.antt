-- ===== src/Bits/Width.antt =====
-- `std::bit_width` and `std::bit_floor` between powers of two.
use native.Mathlib.Nat.{pow-suc, pow-le-pow_right}
use concurrent_hash_sets.Base.{
  ℕ, zero, suc, ◌/◌, ◌^◌, ◌≤◌, ◌<◌, ◌≡◌, ◌≢◌, refl, ap, inl, inr, ◌==◌, ==_iff, ==→ne, Bool-cases,
  arith, dec_lt,
}
use concurrent_hash_sets.Element.{word_bits, word}
use concurrent_hash_sets.Bits.{width_within, bit_width, bit_floor}
use concurrent_hash_sets.Bits.Digits.{pow-pos}

-- `x` has `w` digits.
pub data HasWidth (x w : ℕ) : Type 0 where
  none : x ≡ 0 → w ≡ 0 → HasWidth x w
  some : (k : ℕ) → w ≡ suc k → 2 ^ k ≤ x → x < 2 ^ suc k → HasWidth x w

half-HasWidth : (x w : ℕ) → x ≢ 0 → HasWidth (x / 2) w → HasWidth x (suc w)
half-HasWidth x w pos (none z e) = some 0 (omega arith) (omega arith) (omega arith)
half-HasWidth x w pos (some k e low high) =
    some (suc k) (omega arith) (omega (arith, pow-suc 2 k))
      (omega (arith, pow-suc 2 k, pow-suc 2 (suc k)))

width_within-HasWidth : (f x : ℕ) → x < 2 ^ f → HasWidth x (width_within f x)
unfolding width_within
width_within-HasWidth zero x h = none (omega arith) refl
width_within-HasWidth (suc f) x h = elim (Bool-cases (x == 0)) [
  | inl z ↦ rw z (none ((==_iff x 0).0 z) refl)
  | inr n ↦ rw n (
      half-HasWidth x _ (==→ne x 0 n)
        (width_within-HasWidth f (x / 2) (omega (arith, pow-suc 2 f))))
]

pub bit_width-HasWidth : (x : ℕ) → x < word → HasWidth x (bit_width x)
unfolding bit_width
bit_width-HasWidth x h = width_within-HasWidth word_bits x h

-- Widths order as the numbers do.
pub width_of_lt : (x w k : ℕ) → HasWidth x w → x < 2 ^ k → w ≤ k
width_of_lt x w k (none z e) h = omega arith
width_of_lt x w k (some j e low high) h = elim (dec_lt k (suc j)) [
  | yes q ↦
      absurd (omega (arith, pow-le-pow_right {n = 2} (omega arith) {i = k} {j = j} (omega arith)))
  | no q ↦ omega arith
]

pub lt_of_width : (x w : ℕ) → HasWidth x w → x < 2 ^ w
lt_of_width x w (none z e) = rw (z, e) (omega arith)
lt_of_width x w (some k e low high) = rw e high

pub width_unique : (x v w : ℕ) → HasWidth x v → HasWidth x w → v ≡ w
width_unique x v w a b =
    omega (arith, width_of_lt x v w a (lt_of_width x w b), width_of_lt x w v b (lt_of_width x v a))

pub floor_le : (x w : ℕ) → HasWidth x (suc w) → 2 ^ w ≤ x
floor_le x w (none z e) = absurd (omega arith)
floor_le x w (some k e low high) = let same : w ≡ k = omega arith in rw same low

-- `std::bit_floor` is the power of two below a number that is not zero.
pub bit_floor_lem : (x w : ℕ) → x < word → HasWidth x (suc w) → bit_floor x ≡ 2 ^ w
unfolding bit_floor
bit_floor_lem x w h a = elim (Bool-cases (x == 0)) [
  | inl z ↦ absurd (omega (arith, (==_iff x 0).0 z, pow-pos w, floor_le x w a))
  | inr n ↦
      rw (n, width_unique x (bit_width x) (suc w) (bit_width-HasWidth x h) a)
        (ap (λ (t : ℕ). 2 ^ t) (omega arith))
]
