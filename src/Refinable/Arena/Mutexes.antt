-- ===== src/Refinable/Arena/Mutexes.antt =====
-- The mutexes that the arena of src/HashSetRefinable.h has for the buckets, and its capacity check.
use native.Mathlib.Nat.{pow-suc, pow-le-pow_right}
use Prim.Native.Nat.{bit_and}
use concurrent_hash_sets.Base.{
  ℕ, zero, suc, ◌+◌, ◌-◌, ◌^◌, ◌≤◌, ◌<◌, ◌≡◌, ◌↔◌, sym, ◌∙◌, ap, inl, inr, true, false, ◌==◌,
  ==_iff, arith, Bool-cases, ltb, ltb→le, dec_lt,
}
use concurrent_hash_sets.Element.{word_bits, word}
use concurrent_hash_sets.Outcome.{returns}
use concurrent_hash_sets.Word.{sub_word}
use concurrent_hash_sets.Bits.{countr_zero}
use concurrent_hash_sets.Bits.Digits.{pow-pos}
use concurrent_hash_sets.Bits.Powers.{and-pred_iff, countr_zero-pow, exponent-lt}
use concurrent_hash_sets.Refinable.Arena.{
  validated_shift, block_index, block_offset, block_size, max_blocks,
}
use concurrent_hash_sets.Refinable.Arena.Laws.{
  Located, first, later, index-Located, block_size-first, block_size-later,
}

lt_of_pow : (m n : ℕ) → 2 ^ m < 2 ^ n → m < n
lt_of_pow m n h = elim (dec_lt m n) [
  | yes q ↦ q
  | no q ↦
      absurd (omega (arith, pow-le-pow_right {n = 2} (omega arith) {i = n} {j = m} (omega arith)))
]

le_of_pow : (m n : ℕ) → 2 ^ m ≤ 2 ^ n → m ≤ n
le_of_pow m n h = omega (arith, lt_of_pow m (suc n) (omega (arith, pow-suc 2 n, pow-pos n)))

Located-offset :
    (shift index b o : ℕ)
    → shift < word_bits
    → index < word
    → Located shift index b o
    → o < block_size shift b
Located-offset shift index b o hs h (first q e l) = rw (q, block_size-first shift hs) (omega arith)
Located-offset shift index b o hs h (later k q e l) =
    rw (q, block_size-later shift k (exponent-lt (shift + k) (omega arith))) l

-- For an initial shift below 64 and a bucket index in a word, the offset of the index falls inside
-- its block, and the block inside the arena.
pub block_offset-lt :
    (shift index : ℕ)
    → shift < word_bits
    → index < word
    → (block_offset shift index < block_size shift (block_index shift index))
      × (block_index shift index < max_blocks)
block_offset-lt shift index hs h = (
  Located-offset shift index _ _ hs h (index-Located shift index h),
  block_lt _ _ (index-Located shift index h),
)
  where
    block_lt : (b o : ℕ) → Located shift index b o → b < max_blocks
    block_lt b o (first q e l) = omega arith
    block_lt b o (later k q e l) = omega (arith, exponent-lt (shift + k) (omega arith))

Located-injective : (shift i j b o : ℕ) → Located shift i b o → Located shift j b o → i ≡ j
Located-injective shift i j b o (first q e l) (first q' e' l') = omega arith
Located-injective shift i j b o (first q e l) (later k' q' e' l') = absurd (omega arith)
Located-injective shift i j b o (later k q e l) (first q' e' l') = absurd (omega arith)
Located-injective shift i j b o (later k q e l) (later k' q' e' l') =
    let same : k ≡ k' = omega arith in omega (arith, ap (λ (t : ℕ). 2 ^ (shift + t)) same)

-- Two bucket indices in a word with the same block and the same offset in the mutex arena are the
-- same.
pub mutex_injective :
    (shift i j : ℕ)
    → i < word
    → j < word
    → block_index shift i ≡ block_index shift j
    → block_offset shift i ≡ block_offset shift j
    → i ≡ j
mutex_injective shift i j hi hj hb ho =
    Located-injective shift i j _ _ (rw (hb, ho) at (index-Located shift i hi))
      (index-Located shift j hj)

-- No bucket index in a word and below 2 ^ (shift + rounds), the capacity after a number of resizes,
-- lies in a block beyond that number.
pub block_index-le :
    (shift rounds index : ℕ)
    → index < word
    → index < 2 ^ (shift + rounds)
    → block_index shift index ≤ rounds
block_index-le shift rounds index h below = bound _ _ (index-Located shift index h)
  where
    bound : (b o : ℕ) → Located shift index b o → b ≤ rounds
    bound b o (first q e l) = omega arith
    bound b o (later k q e l) = omega (arith, lt_of_pow (shift + k) (shift + rounds) (omega arith))

-- The block index of 2 ^ (shift + rounds), the capacity after a number of resizes, if it is in a
-- word, is one more than that number: the block that the next resize allocates.
pub block_index-capacity :
    (shift rounds : ℕ)
    → 2 ^ (shift + rounds) < word
    → block_index shift (2 ^ (shift + rounds)) ≡ suc rounds
block_index-capacity shift rounds h = exact _ _ (index-Located shift (2 ^ (shift + rounds)) h)
  where
    exact : (b o : ℕ) → Located shift (2 ^ (shift + rounds)) b o → b ≡ suc rounds
    exact b o (first q e l) = absurd (
        omega (
          arith,
          pow-le-pow_right {n = 2} (omega arith) {i = shift} {j = shift + rounds} (omega arith),
        ))
    exact b o (later k q e l) = omega (
      arith,
      lt_of_pow (shift + rounds) (suc (shift + k)) (omega (arith, pow-suc 2 (shift + k))),
      le_of_pow (shift + k) (shift + rounds) (omega arith),
    )

predecessor : (c : ℕ) → 2 ≤ c → c < word → bit_and (sub_word c 1) c ≡ bit_and (c - 1) c
predecessor c two h = let e : sub_word c 1 ≡ c - 1 = omega arith in ap (λ (t : ℕ). bit_and t c) e

-- What the check answers, read from its two tests.
shift_of_power : (c k : ℕ) → c < word → 2 ≤ c → c ≡ 2 ^ k → validated_shift c ≡ returns k
unfolding validated_shift
shift_of_power c k h two e =
    let zero_and = predecessor c two h ∙ (and-pred_iff c (omega arith)).1 (k, e) in
    let big : ltb c 2 ≡ false = ground arith in
    let test : (bit_and (sub_word c 1) c == 0) ≡ true = (==_iff _ 0).1 zero_and in
    let zeros : countr_zero c ≡ k = rw e (countr_zero-pow k (exponent-lt k (omega arith))) in
    rw (big, test, zeros)

power_of_shift :
    (c k : ℕ) → c < word → validated_shift c ≡ returns k → (j : ℕ) × (2 ≤ c) × (c ≡ 2 ^ j)
unfolding validated_shift
power_of_shift c k h e = elim (Bool-cases (ltb c 2)) [
  | inl low ↦ ground arith
  | inr big ↦ elim (Bool-cases (bit_and (sub_word c 1) c == 0)) [
    | inr other ↦ ground arith
    | inl test ↦
        let two = ltb→le c 2 big in
        let (j, q) =
          (and-pred_iff c (omega arith)).0 (sym (predecessor c two h) ∙ (==_iff _ 0).0 test) in
        (j, two, q)
  ]
]

-- The capacity check of the refinable set returns k for a capacity in a word exactly if it is 2 ^ k
-- with k positive.
pub validated_shift_iff :
    (c k : ℕ) → c < word → (validated_shift c ≡ returns k) ↔ ((c ≡ 2 ^ k) × (0 < k))
validated_shift_iff c k h = (accepted, λ (e, pos). shift_of_power c k h (two_of_pow c k e pos) e)
  where
    two_of_pow : (c k : ℕ) → c ≡ 2 ^ k → 0 < k → 2 ≤ c
    two_of_pow c zero e pos = absurd (omega arith)
    two_of_pow c (suc k) e pos = omega (arith, pow-suc 2 k, pow-pos k)

    pos_of_two : (c k : ℕ) → c ≡ 2 ^ k → 2 ≤ c → 0 < k
    pos_of_two c zero e two = absurd (omega arith)
    pos_of_two c (suc k) e two = omega arith

    accepted : validated_shift c ≡ returns k → (c ≡ 2 ^ k) × (0 < k)
    accepted e =
        let (j, two, q) = power_of_shift c k h e in
        let same : j ≡ k = cc (shift_of_power c j h two q, e) in
        let power = q ∙ ap (λ (t : ℕ). 2 ^ t) same in (power, pos_of_two c k power two)
