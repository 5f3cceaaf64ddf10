-- ===== src/Bucket.antt =====
-- One bucket, a `std::vector<T>`: `std::ranges::find` with the test against `end()`, `push_back`,
-- and `erase` at the iterator that `find` returned.
use concurrent_hash_sets.Base.{
  ℕ, suc, ◌+◌, ◌-◌, ◌<◌, ◌≡◌, ◌≢◌, refl, ◌⊎◌, inr, ite, Bool, true, false, List, [], ◌∷◌, ◌++◌,
  arith, length, length-append,
}
use concurrent_hash_sets.Element.{Element}

module _ {T : Type 0} ⦃e : Element T⦄ where
  -- `std::ranges::find(bucket, elem) != bucket.end()`
  unfoldable pub has : T → List T → Bool
  has x [] = false
  has x (y ∷ b) = ite (e.discrete y x) true (has x b)

  -- `bucket.erase(it)`, at the first element equal to `elem`
  unfoldable pub erase : T → List T → List T
  erase x [] = []
  erase x (y ∷ b) = ite (e.discrete y x) b (y ∷ erase x b)

  -- `bucket.push_back(elem)` that gets its memory; an `Allocator` says whether it does
  unfoldable pub push_back : List T → T → List T
  push_back b x = b ++ x ∷ []

  -- how often `elem` stands in a bucket
  unfoldable pub count : T → List T → ℕ
  count x [] = 0
  count x (y ∷ b) = ite (e.discrete y x) 1 0 + count x b

  pub has-count :
      (x : T) (b : List T)
      → ((has x b ≡ true) × (0 < count x b)) ⊎ ((has x b ≡ false) × (count x b ≡ 0))
  unfolding has count
  has-count x [] = inr (refl, refl)
  has-count x (y ∷ b) = ground (arith, has-count x b)

  pub count-append : (x : T) (a b : List T) → count x (a ++ b) ≡ count x a + count x b
  unfolding count
  count-append x [] b = omega arith
  count-append x (y ∷ a) b = omega (arith, count-append x a b)

  pub count-push_back :
      (x y : T) (b : List T) → count y (push_back b x) ≡ count y b + ite (e.discrete x y) 1 0
  unfolding push_back count
  count-push_back x y b = omega (arith, count-append y b (x ∷ []))

  pub count-erase_self : (x : T) (b : List T) → count x (erase x b) ≡ count x b - 1
  unfolding count erase
  count-erase_self x [] = refl
  count-erase_self x (y ∷ b) = ground (arith, count-erase_self x b)

  pub count-erase_ne : (x y : T) (b : List T) → x ≢ y → count y (erase x b) ≡ count y b
  unfolding count erase
  count-erase_ne x y [] h = refl
  count-erase_ne x y (z ∷ b) h = ground (arith, count-erase_ne x y b h)

  pub length-push_back : (x : T) (b : List T) → length (push_back b x) ≡ suc (length b)
  unfolding push_back
  length-push_back x b = omega (arith, length-append b (x ∷ []))

  pub length-erase : (x : T) (b : List T) → 0 < count x b → length (erase x b) + 1 ≡ length b
  unfolding count erase
  length-erase x [] h = elim h [ ]
  length-erase x (y ∷ b) h = ground (arith, length-erase x b)
