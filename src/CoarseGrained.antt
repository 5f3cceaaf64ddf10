-- ===== src/CoarseGrained.antt =====
-- src/HashSetCoarseGrained.h: one mutex over the whole set. Here each method is run from its call
-- to its return with no other thread in between; CoarseGrained/Threads interleaves them.
pub mod Laws
pub mod Implements
pub mod Threads
use concurrent_hash_sets.Base.{ℕ, max, Bool, true, false, [], replicate, if◌then◌else◌}
use concurrent_hash_sets.Element.{Element}
use concurrent_hash_sets.Outcome.{
  Outcome, returns, throws, allocation_failed, Allocator, then_return,
}
use concurrent_hash_sets.Locked
use concurrent_hash_sets.Locked.{Locked}

-- The data members besides `mutex_`.
abbrev pub HashSetCoarseGrained : Type 0 → Type 0
HashSetCoarseGrained T = Locked T

-- The constructor: `capacity_` is the size that the vector got.
pub new : {T : Type 0} → Allocator → ℕ → Outcome (HashSetCoarseGrained T)
new mem initial_capacity =
    let n = max 1 initial_capacity in
    if mem.fits n
    then returns (record { table = replicate n []; capacity = n; set_size = 0 })
    else throws allocation_failed

module _ {T : Type 0} ⦃e : Element T⦄ where
  -- `Policy()` and `Resize()`, once the lock is released
  pub grow : Allocator → HashSetCoarseGrained T → HashSetCoarseGrained T × Outcome Bool
  grow mem s = if Locked.policy s then then_return (Locked.resize mem s) true else (s, returns true)

  pub add : Allocator → T → HashSetCoarseGrained T → HashSetCoarseGrained T × Outcome Bool
  unfolding grow
  add mem x s =
      let (s', o) = Locked.add_section mem x s in
      elim o [
        | throws c ↦ (s', throws c)
        | returns fresh ↦ (if fresh then grow mem s' else (s', returns false))
      ]

  pub remove : T → HashSetCoarseGrained T → HashSetCoarseGrained T × Bool
  remove x s = Locked.remove x s

  pub contains : T → HashSetCoarseGrained T → Bool
  contains x s = Locked.contains x s

  pub size : HashSetCoarseGrained T → ℕ
  size s = s.set_size
