-- ===== src/Element.antt =====
-- The template parameter `T` of src/HashSet*.h: `==` and `std::hash<T>`, which the code calls and
-- does not define, and the width of `std::size_t`.
use concurrent_hash_sets.Base.{ℕ, ◌^◌, ◌<◌, ite, Bool, true, false}

-- `std::numeric_limits<std::size_t>::digits`, on the 64-bit platforms the code is built for
abbrev pub word_bits : ℕ
word_bits = 64

-- one more than the largest `std::size_t`
abbrev pub word : ℕ
word = 2 ^ word_bits

-- `std::equality_comparable`: `a == b` exactly if the two values are equal. `std::hash` is a
-- function of the value, and its result is a `std::size_t`. `moved x` is what a move leaves of `x`:
-- the value itself for an `int`, whatever the type's move constructor leaves for another.
pub record Element (T : Type 0) : Type 0 where
  pub discrete : Discrete T
  pub hash : T → ℕ
  pub hash-lt : (x : T) → hash x < word
  pub moved : T → T

-- `a == b`
abbrev pub equal : {T : Type 0} ⦃e : Element T⦄ → T → T → Bool
equal ⦃e⦄ x y = ite (e.discrete x y) true false
