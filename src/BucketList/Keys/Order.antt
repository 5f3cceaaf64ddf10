-- ===== src/BucketList/Keys/Order.antt =====
-- The split order of src/BucketList.h: where the keys of elements stand among those of sentinels.
use Prim.Native.Nat.{bit_or}
use native.Mathlib.Nat.{
  mod-eq_of_lt, div-eq_of_lt, mod-mod_of_dvd, mod-eq-zero_of_dvd, add-mod, add-zero, mod-mod,
  mod-lt, mul-le-mul_right, pow-le-pow_right,
}
use concurrent_hash_sets.Base.{
  ℕ, suc, ◌+◌, ◌-◌, ◌*◌, ◌/◌, ◌%◌, ◌^◌, ◌≤◌, ◌<◌, ◌≡◌, sym, ◌∙◌, ap, dec_lt, arith,
}
use concurrent_hash_sets.Element.{Element}
use concurrent_hash_sets.Bits.Digits.{pow-pos, pow-add, and-mask, or-zero, zero-or}
use concurrent_hash_sets.BucketList.Keys.{tail_key, make_sentinel_key, make_ordinary_key}
use concurrent_hash_sets.BucketList.Keys.Blocks.{or_block}
use concurrent_hash_sets.BucketList.Keys.Reversed.{
  reversed, same_width, reversed-lt, reversed-add, reversed-mod, reversed-zero, reversed-last,
  reversed-reversed,
}
use concurrent_hash_sets.BucketList.Keys.Reverse.{reverse_bits_lem}

cut : (n k : ℕ) → k ≤ n → 2 ^ n ≡ 2 ^ k * 2 ^ (n - k)
cut n k h = ap (λ (t : ℕ). 2 ^ t) (omega arith) ∙ pow-add k (n - k)

sentinel_lem : (code : ℕ) → make_sentinel_key code ≡ reversed 64 (code % 2 ^ 62)
unfolding make_sentinel_key
sentinel_lem code = rw (and-mask 62 code) (reverse_bits_lem (code % 2 ^ 62))

module _ {T : Type 0} ⦃e : Element T⦄ where
  -- the code of an element, with the bit that makes its key ordinary
  code : T → ℕ
  code x = e.hash x % 2 ^ 62 + 2 ^ 63

  ordinary_lem : (x : T) → make_ordinary_key x ≡ reversed 64 (code x)
  unfolding make_ordinary_key code
  ordinary_lem x =
      let c = e.hash x % 2 ^ 62 in
      let low : c % 2 ^ 63 ≡ c = omega arith in
      let high : c / 2 ^ 63 ≡ 0 = omega arith in
      let join : bit_or c (2 ^ 63) ≡ c + 2 ^ 63 =
        let parts = rw (low, high, or-zero) at (or_block 63 c (2 ^ 63)) in
        omega (arith, parts, zero-or 1) in
      rw (and-mask 62 (e.hash x), join) (reverse_bits_lem (c + 2 ^ 63))

  -- the lowest digits of a code are those of the hash
  code-mod : (k : ℕ) (x : T) → k ≤ 62 → code x % 2 ^ k ≡ e.hash x % 2 ^ k
  unfolding code
  code-mod k x h =
      let p = 2 ^ k in
      let small : e.hash x % 2 ^ 62 % p ≡ e.hash x % p =
        mod-mod_of_dvd p (e.hash x) ∣ (2 ^ (62 - k), cut 62 k h) ∣₁ in
      let none_left : 2 ^ 63 % p ≡ 0 =
        mod-eq-zero_of_dvd p ∣ (2 ^ (63 - k), cut 63 k (omega arith)) ∣₁ in
      add-mod (e.hash x % 2 ^ 62) (2 ^ 63) p
      ∙ rw (small, none_left) (rw add-zero (mod-mod (e.hash x) p))

-- A reversal from its highest `k` digits on; `w` digits follow.
reversed_from :
    (k w n : ℕ)
    → k + w ≡ 64
    → reversed 64 n ≡ reversed k (n % 2 ^ k) * 2 ^ w + reversed w (n / 2 ^ k)
reversed_from k w n q =
    same_width 64 (k + w) n (sym q)
    ∙ reversed-add k w n
    ∙ ap (λ (t : ℕ). t * 2 ^ w + reversed w (n / 2 ^ k)) (sym (reversed-mod k n))

below_mask : (k j : ℕ) → k ≤ 62 → j < 2 ^ k → j < 2 ^ 62
below_mask k j h l = omega (arith, l, pow-le-pow_right {n = 2} (omega arith) {i = k} {j = 62} h)

-- The key of a sentinel, by the digits that a table of `2 ^ k` buckets reads.
pub sentinel_at :
    (k w j : ℕ) → k ≤ 62 → k + w ≡ 64 → j < 2 ^ k → make_sentinel_key j ≡ reversed k j * 2 ^ w
sentinel_at k w j h q l =
    let same : j % 2 ^ 62 ≡ j = mod-eq_of_lt (below_mask k j h l) in
    let low : j % 2 ^ k ≡ j = mod-eq_of_lt l in
    let high : j / 2 ^ k ≡ 0 = div-eq_of_lt l in
    let split = rw (low, high, reversed-zero w) at (reversed_from k w j q) in
    rw (sentinel_lem j, same) (omega (arith, split))

module _ {T : Type 0} ⦃e : Element T⦄ where
  pub make_ordinary_key-odd : (x : T) → make_ordinary_key x % 2 ≡ 1
  unfolding code
  make_ordinary_key-odd x =
      let c = e.hash x % 2 ^ 62 + 2 ^ 63 in
      let top : c / 2 ^ 63 % 2 ≡ 1 = omega arith in
      omega (arith, ordinary_lem x, reversed-last 63 c, top)

  ordinary_at :
      (k w : ℕ) (x : T)
      → k ≤ 62
      → k + w ≡ 64
      → make_ordinary_key x ≡ reversed k (e.hash x % 2 ^ k) * 2 ^ w + reversed w (code x / 2 ^ k)
  ordinary_at k w x h q =
      ordinary_lem x
      ∙ reversed_from k w (code x) q
      ∙ ap (λ (t : ℕ). reversed k t * 2 ^ w + reversed w (code x / 2 ^ k)) (code-mod k x h)

pub make_sentinel_key-even : (j : ℕ) → make_sentinel_key j % 2 ≡ 0
make_sentinel_key-even j =
    let c = j % 2 ^ 62 in
    let top : c / 2 ^ 63 % 2 ≡ 0 = omega arith in
    omega (arith, sentinel_lem j, reversed-last 63 c, top)

-- No two buckets share a sentinel.
pub make_sentinel_key-injective :
    (i j : ℕ) → i < 2 ^ 62 → j < 2 ^ 62 → make_sentinel_key i ≡ make_sentinel_key j → i ≡ j
make_sentinel_key-injective i j hi hj q =
    let back : (n : ℕ) → n < 2 ^ 62 → reversed 64 (make_sentinel_key n) ≡ n = λ n h.
      ap (reversed 64) (sentinel_lem n ∙ ap (reversed 64) (mod-eq_of_lt h))
      ∙ reversed-reversed 64 n
      ∙ mod-eq_of_lt (omega arith) in
    sym (back i hi) ∙ ap (reversed 64) q ∙ back j hj

le_of_blocks : (a b r w : ℕ) → r < w → b * w ≤ a * w + r → b * w ≤ a * w
le_of_blocks a b r w small h = elim (dec_lt a b) [
  | yes above ↦
      let step : suc a * w ≤ b * w = mul-le-mul_right w above in absurd (omega (arith, step))
  | no below ↦ mul-le-mul_right w (omega arith)
]

module _ {T : Type 0} ⦃e : Element T⦄ where
  -- For a table of 2 ^ k buckets with k at most 62, a sentinel of that table whose key is not past
  -- the key of an element has a key that is not past that of the sentinel of the element's bucket,
  -- which is before the key of the element.
  pub last_sentinel :
      (k j : ℕ) (x : T)
      → k ≤ 62
      → j < 2 ^ k
      → make_sentinel_key j ≤ make_ordinary_key x
      → (make_sentinel_key j ≤ make_sentinel_key (e.hash x % 2 ^ k))
        × (make_sentinel_key (e.hash x % 2 ^ k) < make_ordinary_key x)
  last_sentinel k j x h l q =
      let w = 64 - k in
      let i = e.hash x % 2 ^ k in
      let r = reversed w (code x / 2 ^ k) in
      let here = sentinel_at k w i h (omega arith) (mod-lt (e.hash x) (pow-pos k)) in
      let there = sentinel_at k w j h (omega arith) l in
      let key = ordinary_at k w x h (omega arith) in
      (
        rw (here, there)
            (le_of_blocks (reversed k i) (reversed k j) r (2 ^ w) (reversed-lt w (code x / 2 ^ k))
              (rw (there, key) at q)),
        omega (arith, here, key, make_ordinary_key-odd x, make_sentinel_key-even i),
      )

-- Every key leaves room for the tail.
pub make_sentinel_key-lt : (j : ℕ) → make_sentinel_key j < tail_key
make_sentinel_key-lt j =
    omega (arith, sentinel_lem j, reversed-lt 64 (j % 2 ^ 62), make_sentinel_key-even j)

module _ {T : Type 0} ⦃e : Element T⦄ where
  pub make_ordinary_key-lt : (x : T) → make_ordinary_key x < tail_key
  unfolding code
  make_ordinary_key-lt x =
      let c = e.hash x % 2 ^ 62 + 2 ^ 63 in
      let top : c / 2 ^ 63 % 2 ≡ 1 = omega arith in
      let below_top : c / 2 ^ 62 % 2 ≡ 0 = omega arith in
      omega (
        arith,
        ordinary_lem x,
        reversed-last 63 c,
        reversed-last 62 c,
        top,
        below_top,
        reversed-lt 62 c,
        reversed-lt 64 c,
      )
