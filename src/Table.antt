-- ===== src/Table.antt =====
-- The bucket array, a `std::vector<std::vector<T>>`, and the loop by which every `Resize` of the
-- four table sets moves its elements.
pub mod Place
pub mod Rehash
pub mod Contents
pub mod Ends
use concurrent_hash_sets.Base.{
  ℕ, zero, suc, ◌-◌, ◌%◌, Bool, leb, List, [], ◌∷◌, get_or, set, replicate, length, flatten,
}
use concurrent_hash_sets.Outcome.{Allocator}
use concurrent_hash_sets.Element.{Element}
use concurrent_hash_sets.Bucket.{push_back}

abbrev pub Table : Type 0 → Type 0
Table T = List (List T)

module _ {T : Type 0} ⦃e : Element T⦄ where
  -- `std::hash<T>()(elem) % n`
  unfoldable pub home : T → ℕ → ℕ
  home x n = e.hash x % n

  -- `table[index]`
  abbrev pub bucket_at : Table T → ℕ → List T
  bucket_at table i = get_or table i []

  -- `new_table[hash].push_back(std::move(elem))` that gets its memory
  unfoldable pub move_elem : ℕ → T → Table T → Table T
  move_elem n x fresh = set fresh (home x n) (push_back (bucket_at fresh (home x n)) x)

  -- `for (auto& elem : bucket)`
  unfoldable pub move_bucket : ℕ → List T → Table T → Table T
  move_bucket n [] fresh = fresh
  move_bucket n (x ∷ b) fresh = move_bucket n b (move_elem n x fresh)

  -- `for (auto& bucket : table_)`
  unfoldable pub move_all : ℕ → Table T → Table T → Table T
  move_all n [] fresh = fresh
  move_all n (b ∷ bs) fresh = move_all n bs (move_bucket n b fresh)

  -- the new table of `n` buckets, filled from the old one with no `push_back` refused
  unfoldable pub rehash : ℕ → Table T → Table T
  rehash n table = move_all n table (replicate n [])

  -- whether no `push_back` of the loop is refused its memory
  unfoldable pub refilled : Allocator → Table T → Bool
  refilled mem table = leb (length (flatten table)) mem.refills

  -- A bucket of the old table when `n` of its elements, from the first on, have been moved from.
  unfoldable pub spoil_bucket : ℕ → List T → List T
  spoil_bucket n [] = []
  spoil_bucket zero (x ∷ b) = x ∷ b
  spoil_bucket (suc n) (x ∷ b) = e.moved x ∷ spoil_bucket n b

  -- The old table when the exception of a `push_back` leaves the loop after `n` elements.
  unfoldable pub spoil : ℕ → Table T → Table T
  spoil n [] = []
  spoil n (b ∷ bs) = spoil_bucket n b ∷ spoil (n - length b) bs
