-- ===== src/Bits/Digits.antt =====
-- The lowest digit of `&` and `|`, and what follows for masks.
use Prim.Native.Nat.{min, digits, bit_and, bit_or, bit_and-bitwise, bit_or-bitwise}
use native.Mathlib.Nat.{add-zero, pow-suc, mod-eq_of_lt, add-mul-mod_self_left, mod-lt}
use concurrent_hash_sets.Base.{
  ℕ, zero, suc, ◌+◌, ◌-◌, ◌*◌, ◌/◌, ◌%◌, ◌^◌, ◌≤◌, ◌<◌, ◌≡◌, refl, ◌∙◌, ap, max, arith,
}

-- Fuel beyond the number itself changes nothing.
fuel_free :
    (rest : ℕ → ℕ) (digit : ℕ → ℕ → ℕ) (f g a b : ℕ)
    → a ≤ f
    → a ≤ g
    → digits rest digit f a b ≡ digits rest digit g a b
fuel_free rest digit (suc f) (suc g) (suc a) b hf hg =
    ap (λ (t : ℕ). t * 2 + digit (suc a % 2) (b % 2))
      (fuel_free rest digit f g (suc a / 2) (b / 2) (omega arith) (omega arith))
fuel_free rest digit zero g (suc a) b hf hg = absurd (omega arith)
fuel_free rest digit (suc f) zero (suc a) b hf hg = absurd (omega arith)
fuel_free rest digit zero zero zero b hf hg = refl
fuel_free rest digit zero (suc g) zero b hf hg = refl
fuel_free rest digit (suc f) zero zero b hf hg = refl
fuel_free rest digit (suc f) (suc g) zero b hf hg = refl

pub zero-and : (b : ℕ) → bit_and 0 b ≡ 0
zero-and b = bit_and-bitwise 0 b

pub zero-or : (b : ℕ) → bit_or 0 b ≡ b
zero-or b = bit_or-bitwise 0 b

-- `&` digit by digit
pub and_digit : (a b : ℕ) → bit_and a b ≡ bit_and (a / 2) (b / 2) * 2 + min (a % 2) (b % 2)
and_digit zero b = omega (arith, zero-and b, zero-and (b / 2))
and_digit (suc a) b =
    let h = suc a / 2 in
    omega (
      arith,
      bit_and-bitwise (suc a) b,
      bit_and-bitwise h (b / 2),
      fuel_free (λ y. 0) min a h h (b / 2) (omega arith) (omega arith),
    )

-- `|` digit by digit
pub or_digit : (a b : ℕ) → bit_or a b ≡ bit_or (a / 2) (b / 2) * 2 + max (a % 2) (b % 2)
or_digit zero b = omega (arith, zero-or b, zero-or (b / 2))
or_digit (suc a) b =
    let h = suc a / 2 in
    omega (
      arith,
      bit_or-bitwise (suc a) b,
      bit_or-bitwise h (b / 2),
      fuel_free (λ y. y) max a h h (b / 2) (omega arith) (omega arith),
    )

-- Induction by halving: `n` bounds the number.
or-zero_below : (n a : ℕ) → a ≤ n → bit_or a 0 ≡ a
or-zero_below zero (suc a) h = absurd (omega arith)
or-zero_below zero zero h = zero-or 0
or-zero_below (suc n) zero h = zero-or 0
or-zero_below (suc n) (suc a) h =
    omega (arith, or_digit (suc a) 0, or-zero_below n (suc a / 2) (omega arith))

pub or-zero : (a : ℕ) → bit_or a 0 ≡ a
or-zero a = or-zero_below a a (omega arith)

-- `a | 1` sets the lowest digit.
pub or-one : (a : ℕ) → bit_or a 1 ≡ a / 2 * 2 + 1
or-one a = omega (arith, or_digit a 1, or-zero_below (a / 2) (a / 2) (omega arith))

and_self_below : (n a : ℕ) → a ≤ n → bit_and a a ≡ a
and_self_below zero (suc a) h = absurd (omega arith)
and_self_below zero zero h = zero-and 0
and_self_below (suc n) zero h = zero-and 0
and_self_below (suc n) (suc a) h =
    omega (arith, and_digit (suc a) (suc a), and_self_below n (suc a / 2) (omega arith))

pub and_self : (a : ℕ) → bit_and a a ≡ a
and_self a = and_self_below a a (omega arith)

pub pow-pos : (k : ℕ) → 0 < 2 ^ k
pow-pos zero = omega arith
pow-pos (suc k) = rw pow-suc (omega (arith, pow-pos k))

pub pow-add : (m n : ℕ) → 2 ^ (m + n) ≡ 2 ^ m * 2 ^ n
pow-add m zero = rw (add-zero m) (omega arith)
pow-add m (suc n) =
    let up : 2 ^ (m + suc n) ≡ 2 ^ (m + n) * 2 =
      ap (λ (t : ℕ). 2 ^ t) (omega arith) ∙ pow-suc 2 (m + n) in
    omega (arith, up, pow-add m n, ap (λ (t : ℕ). 2 ^ m * t) (pow-suc 2 n))

-- The remainder by twice a number, from the halves.
pub mod-double : (a m : ℕ) → 0 < m → a % (m * 2) ≡ a / 2 % m * 2 + a % 2
mod-double a m h =
    let q = a / 2 in
    let low = q % m * 2 + a % 2 in
    let small : low < m * 2 = omega (arith, mod-lt q h) in
    let whole : a ≡ low + m * 2 * (q / m) = omega arith in
    ap (λ (t : ℕ). t % (m * 2)) whole
    ∙ add-mul-mod_self_left low (m * 2) (q / m)
    ∙ mod-eq_of_lt small

and-zero_below : (n a : ℕ) → a ≤ n → bit_and a 0 ≡ 0
and-zero_below zero (suc a) h = absurd (omega arith)
and-zero_below zero zero h = zero-and 0
and-zero_below (suc n) zero h = zero-and 0
and-zero_below (suc n) (suc a) h =
    omega (arith, and_digit (suc a) 0, and-zero_below n (suc a / 2) (omega arith))

-- `a & (2 ^ k - 1)` is the remainder by `2 ^ k`.
pub and-mask : (k a : ℕ) → bit_and a (2 ^ k - 1) ≡ a % 2 ^ k
and-mask zero a = omega (arith, and-zero_below a a (omega arith))
and-mask (suc k) a = rw pow-suc (
    omega (
      arith,
      and_digit a (2 ^ k * 2 - 1),
      pow-pos k,
      ap (λ (t : ℕ). bit_and (a / 2) t) half,
      and-mask k (a / 2),
      mod-double a (2 ^ k) (pow-pos k),
    ))
  where
    half : (2 ^ k * 2 - 1) / 2 ≡ 2 ^ k - 1
    half = omega (arith, pow-pos k)

-- `a & ~1`, in a word, clears the lowest digit.
pub and-even : (k a : ℕ) → a < 2 ^ suc k → bit_and a (2 ^ suc k - 2) ≡ a / 2 * 2
and-even k a h = omega (
  arith,
  pow-suc 2 k,
  and_digit a (2 ^ suc k - 2),
  pow-pos k,
  ap (λ (t : ℕ). bit_and (a / 2) t) half,
  and-mask k (a / 2),
  mod-eq_of_lt below,
)
  where
    half : (2 ^ suc k - 2) / 2 ≡ 2 ^ k - 1
    half = omega (arith, pow-suc 2 k)

    below : a / 2 < 2 ^ k
    below = omega (arith, pow-suc 2 k)
