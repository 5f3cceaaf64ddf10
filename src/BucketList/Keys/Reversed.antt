-- ===== src/BucketList/Keys/Reversed.antt =====
-- The digits of a number in the opposite order, as a plain recursion.
use native.Mathlib.Nat.{
  pow-suc, div-div-eq-div-mul, div-one, mod-one, mul-add-div_right, div-eq_of_lt,
  mul-add-mod_self_right, mod-eq_of_lt,
}
use concurrent_hash_sets.Base.{
  ℕ, zero, suc, ◌+◌, ◌*◌, ◌/◌, ◌%◌, ◌^◌, ◌≤◌, ◌<◌, ◌≡◌, refl, sym, ◌∙◌, ap, arith,
}
use concurrent_hash_sets.Bits.Digits.{pow-pos, pow-add, mod-double}

-- the lowest `w` digits of `n`, in the opposite order
unfoldable pub reversed : ℕ → ℕ → ℕ
reversed zero n = 0
reversed (suc w) n = n % 2 * 2 ^ w + reversed w (n / 2)

-- Widths that are equal reverse alike.
pub same_width : (v w n : ℕ) → v ≡ w → reversed v n ≡ reversed w n
same_width v w n e = ap (λ t. reversed t n) e

pub reversed-lt : (w n : ℕ) → reversed w n < 2 ^ w
unfolding reversed
reversed-lt zero n = omega arith
reversed-lt (suc w) n =
    let low : n % 2 * 2 ^ w ≤ 2 ^ w = grind arith in
    omega (arith, reversed-lt w (n / 2), low, pow-suc 2 w)

-- Reversing a number by its lowest digits and the others.
pub reversed-add : (v w n : ℕ) → reversed (v + w) n ≡ reversed v n * 2 ^ w + reversed w (n / 2 ^ v)
unfolding reversed
reversed-add zero w n =
    let e : reversed (0 + w) n ≡ reversed w n = same_width (0 + w) w n (omega arith) in
    rw div-one (omega (arith, e))
reversed-add (suc v) w n =
    let e : reversed (suc v + w) n ≡ reversed (suc (v + w)) n =
      same_width (suc v + w) (suc (v + w)) n (omega arith) in
    let q : n / 2 / 2 ^ v ≡ n / 2 ^ suc v =
      div-div-eq-div-mul n 2 (2 ^ v) ∙ ap (λ (t : ℕ). n / t) (omega (arith, pow-suc 2 v)) in
    let ih = rw q at (reversed-add v w (n / 2)) in
    omega (arith, e, ih, ap (λ (t : ℕ). n % 2 * t) (pow-add v w))

-- Only the lowest digits count.
pub reversed-mod : (w n : ℕ) → reversed w (n % 2 ^ w) ≡ reversed w n
unfolding reversed
reversed-mod zero n = refl
reversed-mod (suc w) n =
    let d = ap (λ (t : ℕ). n % t) (pow-suc 2 w) in
    let low : n % 2 ^ suc w % 2 ≡ n % 2 = omega (arith, d, mod-double n (2 ^ w) (pow-pos w)) in
    let half : n % 2 ^ suc w / 2 ≡ n / 2 % 2 ^ w =
      omega (arith, d, mod-double n (2 ^ w) (pow-pos w)) in
    rw (low, half, reversed-mod w (n / 2)) refl

pub reversed-zero : (w : ℕ) → reversed w 0 ≡ 0
unfolding reversed
reversed-zero zero = refl
reversed-zero (suc w) = omega (arith, reversed-zero w)

-- The highest digit becomes the lowest.
pub reversed-last : (w n : ℕ) → reversed (suc w) n ≡ reversed w n * 2 + n / 2 ^ w % 2
reversed-last w n =
    let e : reversed (suc w) n ≡ reversed (w + 1) n = same_width (suc w) (w + 1) n (omega arith) in
    let one : reversed 1 (n / 2 ^ w) ≡ n / 2 ^ w % 2 = unfold reversed in omega arith in
    omega (arith, e, reversed-add w 1 n, one)

-- Reversed twice, the lowest digits are there again.
pub reversed-reversed : (w n : ℕ) → reversed w (reversed w n) ≡ n % 2 ^ w
reversed-reversed zero n = unfold reversed in rw mod-one refl
reversed-reversed (suc w) n =
    let r = reversed w (n / 2) in
    let m = n % 2 * 2 ^ w + r in
    let start : reversed (suc w) n ≡ m = unfold reversed in refl in
    let top : m / 2 ^ w ≡ n % 2 =
      mul-add-div_right (pow-pos w) (n % 2) r
      ∙ omega (arith, div-eq_of_lt (reversed-lt w (n / 2))) in
    let low : m % 2 ^ w ≡ r =
      mul-add-mod_self_right (n % 2) (2 ^ w) r ∙ mod-eq_of_lt (reversed-lt w (n / 2)) in
    let inner : reversed w m ≡ n / 2 % 2 ^ w =
      sym (reversed-mod w m) ∙ ap (reversed w) low ∙ reversed-reversed w (n / 2) in
    rw (start, reversed-last w m, inner, top)
      (omega (arith, mod-double n (2 ^ w) (pow-pos w), ap (λ (t : ℕ). n % t) (pow-suc 2 w)))
