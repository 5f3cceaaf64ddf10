-- ===== src/Benchmark/Run/Counting.antt =====
-- The sums of the threads' counters.
use concurrent_hash_sets.Base.{ℕ, zero, suc, ◌+◌, ◌%◌, ◌<◌, ◌≡◌, ◌≢◌, refl, ℕ_discrete, arith}
use concurrent_hash_sets.Element.{word}
use concurrent_hash_sets.Word.{add_word}
use concurrent_hash_sets.Benchmark.Run.{gather}

pub gather-zero : (n : ℕ) → gather n (λ _. 0) ≡ 0
unfolding gather
gather-zero zero = refl
gather-zero (suc n) = omega (arith, gather-zero n)

-- Counters that agree below `n` have one sum.
gather-same : (n : ℕ) (f g : ℕ → ℕ) → ((j : ℕ) → j < n → g j ≡ f j) → gather n g ≡ gather n f
unfolding gather
gather-same zero f g h = refl
gather-same (suc n) f g h = rw (gather-same n f g (λ j l. h j (omega arith)), h n (omega arith))

-- One thread's counter goes up by `k`.
pub gather-bump :
    (n i k : ℕ) (f g : ℕ → ℕ)
    → i < n
    → g i % word ≡ (f i + k) % word
    → ((j : ℕ) → j ≢ i → g j ≡ f j)
    → gather n g ≡ add_word (gather n f) k
unfolding gather
gather-bump zero i k f g h self others = absurd (omega arith)
gather-bump (suc n) i k f g h self others = elim (ℕ_discrete i n) [
  | yes q ↦
      let low = gather-same n f g (λ j l. others j (λ r. absurd (omega (arith, l, r, q)))) in
      let top : g n % word ≡ (f n + k) % word = rw q at self in omega (arith, low, top)
  | no q ↦
      let low = gather-bump n i k f g (omega arith) self others in
      omega (arith, low, others n (λ r. q (omega arith)))
]
