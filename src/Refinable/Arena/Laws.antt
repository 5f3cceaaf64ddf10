-- ===== src/Refinable/Arena/Laws.antt =====
-- Which block and which offset of the arena of src/HashSetRefinable.h an index has.
use native.Mathlib.Nat.{pow-suc, pow-le-pow_right, div-add-mod, mod-lt}
use concurrent_hash_sets.Base.{
  ℕ, suc, ◌+◌, ◌-◌, ◌*◌, ◌/◌, ◌%◌, ◌^◌, ◌≤◌, ◌<◌, ◌≡◌, refl, ap, false, ◌==◌, arith,
}
use concurrent_hash_sets.Element.{word_bits, word}
use concurrent_hash_sets.Word.{sub_word}
use concurrent_hash_sets.Bits.{shift_left, bit_width, bit_floor}
use concurrent_hash_sets.Bits.Digits.{pow-pos, pow-add}
use concurrent_hash_sets.Bits.Width.{HasWidth, none, some, bit_width-HasWidth, bit_floor_lem}
use concurrent_hash_sets.Refinable.Arena.{block_index, block_offset, block_size}

div-bounds : (x p : ℕ) → 0 < p → (x / p * p ≤ x) × (x < x / p * p + p)
div-bounds x p h = (omega (arith, div-add-mod x p), omega (arith, div-add-mod x p, mod-lt x h))

-- What the quotient by `2 ^ shift` between two powers says of the number.
quotient-bounds :
    (x shift k : ℕ)
    → 2 ^ k ≤ x / 2 ^ shift
    → x / 2 ^ shift < 2 ^ suc k
    → (2 ^ (shift + k) ≤ x) × (x < 2 ^ (shift + k) + 2 ^ (shift + k))
quotient-bounds x shift k low high =
    let p = 2 ^ shift in
    let q = x / p in
    let b = div-bounds x p (pow-pos shift) in
    let under : 2 ^ k * p ≤ q * p = grind arith in
    let over : (q + 1) * p ≤ 2 ^ suc k * p = grind arith in
    let twice : 2 ^ suc k * p ≡ (2 ^ k * 2) * p = ap (λ (t : ℕ). t * p) (pow-suc 2 k) in
    (omega (arith, b.0, under, pow-add shift k), omega (arith, b.1, over, twice, pow-add shift k))

small_quotient : (x p : ℕ) → 0 < p → x / p ≡ 0 → x < p
small_quotient x p h z = omega (arith, (div-bounds x p h).1, ap (λ (t : ℕ). t * p) z)

bit_floor-zero : bit_floor 0 ≡ 0
unfolding bit_floor
bit_floor-zero = refl

-- The first block takes the indices below `2 ^ shift`; block `k + 1` takes those from
-- `2 ^ (shift + k)` on, up to twice that.
pub data Located (shift index : ℕ) (block offset : ℕ) : Type 0 where
  first : block ≡ 0 → offset ≡ index → index < 2 ^ shift → Located shift index block offset
  later :
      (k : ℕ)
      → block ≡ suc k
      → index ≡ 2 ^ (shift + k) + offset
      → offset < 2 ^ (shift + k)
      → Located shift index block offset

pub index-Located :
    (shift index : ℕ)
    → index < word
    → Located shift index (block_index shift index) (block_offset shift index)
unfolding block_index block_offset
index-Located shift index h = locate (bit_width-HasWidth q (omega arith))
  where
    q : ℕ
    q = index / 2 ^ shift

    locate :
        HasWidth q (bit_width q)
        → Located shift index (bit_width q) (sub_word index (shift_left (bit_floor q) shift))
    locate (none z e) =
        first e (rw (z, bit_floor-zero) (omega arith))
          (small_quotient index (2 ^ shift) (pow-pos shift) z)
    locate (some k e low high) =
        let floor : bit_floor q ≡ 2 ^ k =
          bit_floor_lem q k (omega arith) (rw e at (bit_width-HasWidth q (omega arith))) in
        let b = quotient-bounds index shift k low high in
        let product : 2 ^ k * 2 ^ shift ≡ 2 ^ (shift + k) = omega (arith, pow-add shift k) in
        later k e (rw (floor, product) (omega (arith, b.0)))
          (rw (floor, product) (omega (arith, b.0, b.1)))

pow-lt-word : (k : ℕ) → k < word_bits → 2 ^ k < word
pow-lt-word k h =
    omega (arith, pow-le-pow_right {n = 2} (omega arith) {i = k} {j = 63} (omega arith))

pub block_size-first : (shift : ℕ) → shift < word_bits → block_size shift 0 ≡ 2 ^ shift
unfolding block_size
block_size-first shift h = omega (arith, pow-lt-word shift h)

pub block_size-later :
    (shift k : ℕ) → shift + k < word_bits → block_size shift (suc k) ≡ 2 ^ (shift + k)
unfolding block_size
block_size-later shift k h =
    let e : (shift + suc k + word - 1) % word ≡ shift + k = omega arith in
    let later_block : (suc k == 0) ≡ false = ground arith in
    rw (e, later_block) (omega (arith, pow-lt-word (shift + k) h))
