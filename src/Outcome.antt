-- ===== src/Outcome.antt =====
-- How a call ends, and what the allocator answers.
use concurrent_hash_sets.Base.{ℕ, ◌≤◌, ◌^◌, ◌≡◌, refl, Bool, true}

-- The exceptions that leave the code: `std::bad_alloc` or `std::length_error` out of a vector's
-- constructor, `std::invalid_argument` out of the capacity checks, and `std::runtime_error`.
pub data Error : Type 0 where
  allocation_failed invalid_argument runtime_error : Error

pub data Outcome {ℓ} (A : Type ℓ) : Type ℓ where
  returns : A → Outcome A
  throws : Error → Outcome A

-- The standard library's allocation of memory, at one call. It answers for each number of buckets
-- whether the vector can be made. `std::vector::max_size` keeps an object within half of the address
-- space, and a bucket takes at least eight bytes. It answers whether the `push_back` of `Add` gets
-- its memory, and how many of the `push_back`s of `Resize` do before one is refused.
pub record Allocator : Type 0 where
  pub fits : ℕ → Bool
  pub fits_small : (n : ℕ) → fits n ≡ true → n ≤ 2 ^ 60
  pub appends : Bool
  pub refills : ℕ

-- A call whose result is dropped, followed by `return b`; an exception of the call goes on out.
abbrev pub then_return {ℓ} : {S A B : Type ℓ} → S × Outcome A → B → S × Outcome B
then_return (s, returns _) b = (s, returns b)
then_return (s, throws c) b = (s, throws c)

pub then_return-state {ℓ} : {S A B : Type ℓ} (r : S × Outcome A) (b : B) → (then_return r b).0 ≡ r.0
then_return-state (s, returns _) b = refl
then_return-state (s, throws c) b = refl

pub then_return-outcome {ℓ} :
    {S A B : Type ℓ} (r : S × Outcome A) (b : B)
    → (then_return r b).1 ≡ (then_return (tt {ℓ}, r.1) b).1
then_return-outcome (s, returns _) b = refl
then_return-outcome (s, throws c) b = refl
