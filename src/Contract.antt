-- ===== src/Contract.antt =====
-- src/HashSetBase.h: the abstract class that every set implements, as a record of operations and
-- of the promises that its comments make.
use concurrent_hash_sets.Base.{
  ℕ, ◌+◌, ◌≤◌, ◌%◌, ◌≡◌, ◌≢◌, ◌⊎◌, Bool, true, false, not, List, length, if◌then◌else◌,
}
use concurrent_hash_sets.Element.{Element, word}
use concurrent_hash_sets.Outcome.{Outcome, returns, throws, allocation_failed, Allocator}
use concurrent_hash_sets.Bucket.{has, count}

-- What `Add` may answer: whether the element was absent; or the element was absent and it throws for
-- want of memory.
abbrev pub Answers : Outcome Bool → Bool → Type 0
Answers o present =
    (o ≡ returns (not present)) ⊎ ((present ≡ false) × (o ≡ throws allocation_failed))

-- `elements` is what a set holds, each element once, in some order. The promises on the state that
-- `Add` leaves are for an `Add` that returns.
pub record HashSetBase (T : Type 0) ⦃e : Element T⦄ : Type 1 where
  pub State : Type 0
  pub IsValid : State → Type 0
  pub elements : State → List T
  pub add : Allocator → T → State → State × Outcome Bool
  pub remove : T → State → State × Bool
  pub contains : T → State → Bool
  pub size : State → ℕ
  pub add-IsValid :
      (mem : Allocator) (x : T) (s : State) {b : Bool}
      → IsValid s
      → (add mem x s).1 ≡ returns b
      → IsValid (add mem x s).0
  pub remove-IsValid : (x : T) (s : State) → IsValid s → IsValid (remove x s).0
  pub contains_lem : (x : T) (s : State) → IsValid s → contains x s ≡ has x (elements s)
  pub size_lem : (s : State) → IsValid s → size s ≡ length (elements s) % word
  pub elements_unique : (x : T) (s : State) → IsValid s → count x (elements s) ≤ 1
  pub add-Answers :
      (mem : Allocator) (x : T) (s : State) → IsValid s → Answers (add mem x s).1 (contains x s)
  pub add-self :
      (mem : Allocator) (x : T) (s : State) {b : Bool}
      → IsValid s
      → (add mem x s).1 ≡ returns b
      → contains x (add mem x s).0 ≡ true
  pub add-others :
      (mem : Allocator) (x y : T) (s : State) {b : Bool}
      → IsValid s
      → (add mem x s).1 ≡ returns b
      → x ≢ y
      → contains y (add mem x s).0 ≡ contains y s
  pub add-amount :
      (mem : Allocator) (x : T) (s : State) {b : Bool}
      → IsValid s
      → (add mem x s).1 ≡ returns b
      → length (elements (add mem x s).0) + (if contains x s then 1 else 0)
        ≡ length (elements s) + 1
  pub remove-result : (x : T) (s : State) → IsValid s → (remove x s).1 ≡ contains x s
  pub remove-self : (x : T) (s : State) → IsValid s → contains x (remove x s).0 ≡ false
  pub remove-others :
      (x y : T) (s : State) → IsValid s → x ≢ y → contains y (remove x s).0 ≡ contains y s
  pub remove-amount :
      (x : T) (s : State)
      → IsValid s
      → length (elements (remove x s).0) + (if contains x s then 1 else 0) ≡ length (elements s)
