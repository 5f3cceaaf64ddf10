-- ===== src/LockFree/Parent.antt =====
-- The parent of a bucket of src/HashSetLockFree.h.
use native.Mathlib.Nat.{pow-suc, mod-eq_of_lt, mod-eq-sub-mod, mod-mod_of_dvd}
use concurrent_hash_sets.Base.{ℕ, suc, ◌-◌, ◌%◌, ◌^◌, ◌≤◌, ◌<◌, ◌≡◌, refl, sym, ◌∙◌, ap, arith}
use concurrent_hash_sets.Element.{word}
use concurrent_hash_sets.Bits.{bit_floor}
use concurrent_hash_sets.Bits.Width.{some, bit_floor_lem}
use concurrent_hash_sets.LockFree.{parent_index}

-- The parent of a bucket, with an index in a word, that a table of 2 ^ (k + 1) buckets has and one
-- of 2 ^ k has not is a bucket of the smaller table, and it is where that table puts every hash
-- that the larger one puts in the bucket.
pub parent_index_lem :
    (k index hash : ℕ)
    → index < word
    → 2 ^ k ≤ index
    → index < 2 ^ suc k
    → hash % 2 ^ suc k ≡ index
    → (parent_index index < 2 ^ k) × (hash % 2 ^ k ≡ parent_index index)
unfolding parent_index
parent_index_lem k index hash h low high q =
    let floor : bit_floor index ≡ 2 ^ k = bit_floor_lem index k h (some k refl low high) in
    let parent : parent_index index ≡ index - 2 ^ k = rw floor (omega (arith, low, h)) in
    let small : index - 2 ^ k < 2 ^ k = omega (arith, pow-suc 2 k) in
    let halves : hash % 2 ^ suc k % 2 ^ k ≡ hash % 2 ^ k =
      mod-mod_of_dvd _ hash ∣ (2, pow-suc 2 k) ∣₁ in
    let rest : index % 2 ^ k ≡ index - 2 ^ k = mod-eq-sub-mod low ∙ mod-eq_of_lt small in
    (rw parent small, sym halves ∙ ap (λ (t : ℕ). t % 2 ^ k) q ∙ rest ∙ sym parent)
