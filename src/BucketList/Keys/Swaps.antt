-- ===== src/BucketList/Keys/Swaps.antt =====
-- The swaps of `ReverseBits` of src/BucketList.h, byte by byte.
use Prim.Native.Nat.{bit_and, bit_or}
use native.Mathlib.Nat.{div-div-eq-div-mul}
use concurrent_hash_sets.Base.{
  ℕ, zero, suc, ◌+◌, ◌*◌, ◌/◌, ◌%◌, ◌<◌, ◌≡◌, refl, sym, ◌∙◌, ap, Bool, true, ◌&&◌, ◌==◌, ==_iff,
  ltb, ltb→lt, arith,
}
use concurrent_hash_sets.BucketList.Keys.Blocks.{and_block, or_block}

-- a test at every number below a bound
unfoldable pub all_below : ℕ → (ℕ → Bool) → Bool
all_below zero p = true
all_below (suc n) p = p n && all_below n p

pub all_below_sound : (n : ℕ) (p : ℕ → Bool) (x : ℕ) → all_below n p ≡ true → x < n → p x ≡ true
unfolding all_below
all_below_sound zero p x h l = absurd (omega arith)
all_below_sound (suc n) p x h l = ground (arith, all_below_sound n p x)

-- a byte repeated
unfoldable pub mask : ℕ → ℕ → ℕ
mask m zero = 0
mask m (suc k) = m + 256 * mask m k

-- What a swap of groups of `s` digits with the mask `m` does in a byte; `p` is `2 ^ s`.
pub record Groups (p m : ℕ) : Type 0 where
  pub byte : m < 256
  pub across : (n : ℕ) → bit_and (n / p % 256) m ≡ bit_and (n % 256 / p) m
  pub right-lt : (b : ℕ) → b < 256 → bit_and (b / p) m < 256
  pub left-lt : (b : ℕ) → b < 256 → bit_and b m * p < 256

-- the swap on the lowest `k` bytes
unfoldable pub swap_bytes : (p m k n : ℕ) → ℕ
swap_bytes p m k n = bit_or (bit_and (n / p) (mask m k)) (bit_and n (mask m k) * p)

-- the swap in one byte
unfoldable pub swap_byte : (p m b : ℕ) → ℕ
swap_byte p m b = bit_or (bit_and (b / p) m) (bit_and b m * p)

module _ (p m : ℕ) (g : Groups p m) where
  mask_low : (k : ℕ) → mask m (suc k) % 256 ≡ m
  unfolding mask
  mask_low k = omega (arith, g.byte)

  mask_high : (k : ℕ) → mask m (suc k) / 256 ≡ mask m k
  unfolding mask
  mask_high k = omega (arith, g.byte)

  right_part :
      (k n : ℕ)
      → bit_and (n / p) (mask m (suc k))
        ≡ bit_and (n % 256 / p) m + bit_and (n / 256 / p) (mask m k) * 256
  right_part k n =
      let swap : n / p / 256 ≡ n / 256 / p =
        div-div-eq-div-mul n p 256
        ∙ ap (λ (t : ℕ). n / t) (omega arith)
        ∙ sym (div-div-eq-div-mul n 256 p) in
      let parts = rw (mask_low k, mask_high k, swap) at (and_block 8 (n / p) (mask m (suc k))) in
      omega (arith, parts, g.across n)

  pub left_part :
      (k n : ℕ)
      → bit_and n (mask m (suc k)) * p
        ≡ bit_and (n % 256) m * p + bit_and (n / 256) (mask m k) * p * 256
  left_part k n =
      let parts = rw (mask_low k, mask_high k) at (and_block 8 n (mask m (suc k))) in
      omega (arith, ap (λ (t : ℕ). t * p) parts)

  pub swap_bytes-suc :
      (k n : ℕ)
      → swap_bytes p m (suc k) n ≡ swap_byte p m (n % 256) + swap_bytes p m k (n / 256) * 256
  unfolding swap_bytes swap_byte
  swap_bytes-suc k n =
      let r = g.right-lt (n % 256) (omega arith) in
      let l = g.left-lt (n % 256) (omega arith) in
      let a = bit_and (n / p) (mask m (suc k)) in
      let b = bit_and n (mask m (suc k)) * p in
      let a₀ : a % 256 ≡ bit_and (n % 256 / p) m = omega (arith, right_part k n, r) in
      let a₁ : a / 256 ≡ bit_and (n / 256 / p) (mask m k) = omega (arith, right_part k n, r) in
      let b₀ : b % 256 ≡ bit_and (n % 256) m * p = omega (arith, left_part k n, l) in
      let b₁ : b / 256 ≡ bit_and (n / 256) (mask m k) * p = omega (arith, left_part k n, l) in
      rw (a₀, a₁, b₀, b₁) at (or_block 8 a b)

-- the checks of one mask, at every byte and every number of `256 * p`
unfoldable pub byte_checks : (p m : ℕ) → Bool
byte_checks p m =
    all_below 256
      (λ b. ltb (bit_and (b / p) m) 256 && (ltb (bit_and b m * p) 256 && ltb (swap_byte p m b) 256))

across_checks : (p m : ℕ) → Bool
across_checks p m = all_below (256 * p) (λ n. bit_and (n / p) m == bit_and (n % 256 / p) m)

both : (a b : Bool) → (a && b) ≡ true → (a ≡ true) × (b ≡ true)
both a b h = ground arith

pub swap_byte-lt : (p m b : ℕ) → byte_checks p m ≡ true → b < 256 → swap_byte p m b < 256
unfolding byte_checks
swap_byte-lt p m b h l =
    let (x, y) = both _ _ (all_below_sound 256 _ b h l) in ltb→lt _ _ (both _ _ y).1

Groups-of_checks :
    (p m : ℕ)
    → m < 256
    → byte_checks p m ≡ true
    → across_checks p m ≡ true
    → ((n : ℕ) → n / p % 256 ≡ n % (256 * p) / p)
    → ((n : ℕ) → n % (256 * p) % 256 ≡ n % 256)
    → ((n : ℕ) → n % (256 * p) < 256 * p)
    → Groups p m
unfolding byte_checks across_checks
Groups-of_checks p m byte h c quotient rest bound = record {
  byte = byte;
  across = λ n.
      rw (quotient n, ← rest n)
        ((==_iff _ _).0 (all_below_sound (256 * p) _ (n % (256 * p)) c (bound n)));
  right-lt = λ b l. ltb→lt _ _ (both _ _ (all_below_sound 256 _ b h l)).0;
  left-lt = λ b l. ltb→lt _ _ (both _ _ (both _ _ (all_below_sound 256 _ b h l)).1).0;
}

pub checks_1 : byte_checks 2 0x55 ≡ true
unfolding byte_checks all_below swap_byte
checks_1 = refl

pub checks_2 : byte_checks 4 0x33 ≡ true
unfolding byte_checks all_below swap_byte
checks_2 = refl

pub checks_4 : byte_checks 16 0x0F ≡ true
unfolding byte_checks all_below swap_byte
checks_4 = refl

across_1 : across_checks 2 0x55 ≡ true
unfolding across_checks all_below
across_1 = refl

across_2 : across_checks 4 0x33 ≡ true
unfolding across_checks all_below
across_2 = refl

across_4 : across_checks 16 0x0F ≡ true
unfolding across_checks all_below
across_4 = refl

pub Groups-1 : Groups 2 0x55
Groups-1 =
    Groups-of_checks 2 0x55 (omega arith) checks_1 across_1 (λ n. omega arith) (λ n. omega arith)
      (λ n. omega arith)

pub Groups-2 : Groups 4 0x33
Groups-2 =
    Groups-of_checks 4 0x33 (omega arith) checks_2 across_2 (λ n. omega arith) (λ n. omega arith)
      (λ n. omega arith)

pub Groups-4 : Groups 16 0x0F
Groups-4 =
    Groups-of_checks 16 0x0F (omega arith) checks_4 across_4 (λ n. omega arith) (λ n. omega arith)
      (λ n. omega arith)
