-- ===== src/LockFree/Sentinels.antt =====
-- The sentinels of a bucket and of its parent in src/HashSetLockFree.h.
use native.Mathlib.Nat.{
  pow-suc, mod-eq_of_lt, div-eq_of_lt, div-eq_of_lt-le, pow-le-pow_right, mod-eq-sub-mod,
}
use concurrent_hash_sets.Base.{
  ℕ, suc, ◌+◌, ◌-◌, ◌*◌, ◌/◌, ◌^◌, ◌≤◌, ◌<◌, ◌≡◌, refl, sym, ◌∙◌, ap, dec_lt, arith,
}
use concurrent_hash_sets.Bits.{bit_width, bit_floor}
use concurrent_hash_sets.Bits.Digits.{pow-pos}
use concurrent_hash_sets.Bits.Width.{HasWidth, none, some, bit_width-HasWidth, bit_floor_lem}
use concurrent_hash_sets.LockFree.{parent_index}
use concurrent_hash_sets.BucketList.Keys.{make_sentinel_key}
use concurrent_hash_sets.BucketList.Keys.Reversed.{reversed, reversed-last, reversed-mod}
use concurrent_hash_sets.BucketList.Keys.Order.{sentinel_at}

exponent-le : (k n : ℕ) → 2 ^ k < 2 ^ n → suc k ≤ n
exponent-le k n h = elim (dec_lt k n) [
  | yes q ↦ q
  | no q ↦
      absurd (omega (arith, pow-le-pow_right {n = 2} (omega arith) {i = n} {j = k} (omega arith)))
]

-- The sentinel of a bucket, with an index from 1 and below 2 ^ 62, has a larger key than the
-- sentinel of its parent, from which InitializeBucket looks for it.
pub parent_before :
    (index : ℕ)
    → 0 < index
    → index < 2 ^ 62
    → make_sentinel_key (parent_index index) < make_sentinel_key index
unfolding parent_index
parent_before index pos h = go (bit_width index) (bit_width-HasWidth index (omega arith))
  where
    go :
        (v : ℕ)
        → HasWidth index v
        → make_sentinel_key (parent_index index) < make_sentinel_key index
    go v (none z q) = absurd (omega arith)
    go v (some k q low high) =
        let parent = index - 2 ^ k in
        let floor : bit_floor index ≡ 2 ^ k =
          bit_floor_lem index k (omega arith) (some k refl low high) in
        let here : parent_index index ≡ parent =
          unfold parent_index in rw floor (omega (arith, low, h)) in
        let small : parent < 2 ^ k = omega (arith, pow-suc 2 k) in
        let fits : suc k ≤ 62 = exponent-le k 62 (omega arith) in
        let one : index / 2 ^ k ≡ 1 =
          div-eq_of_lt-le {k = 1} (2 ^ k) (omega arith) (omega (arith, pow-suc 2 k)) in
        let same : reversed k index ≡ reversed k parent =
          sym (reversed-mod k index) ∙ ap (reversed k) (mod-eq-sub-mod low ∙ mod-eq_of_lt small) in
        let zero_at : parent / 2 ^ k ≡ 0 = div-eq_of_lt small in
        let a : reversed (suc k) index ≡ reversed k parent * 2 + 1 =
          rw (same, one) at (reversed-last k index) in
        let b : reversed (suc k) parent ≡ reversed k parent * 2 + 0 =
          rw zero_at at (reversed-last k parent) in
        let x = sentinel_at (suc k) (63 - k) index fits (omega (arith, fits)) high in
        let y =
          sentinel_at (suc k) (63 - k) parent fits (omega (arith, fits))
            (omega (arith, pow-suc 2 k)) in
        rw (here, x, y, a, b) (omega (arith, pow-pos (63 - k)))
