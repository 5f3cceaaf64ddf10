-- ===== src/Striped.antt =====
-- src/HashSetStriped.h: as many mutexes as the table had buckets at first, each for every bucket
-- whose index leaves its own as the remainder. Here each method is run from its call to its return
-- with no other thread in between.
pub mod Stripes
pub mod Locks
pub mod Commute
pub mod Laws
pub mod Implements
use concurrent_hash_sets.Base.{
  ℕ, zero, suc, ◌+◌, max, Bool, true, false, List, [], set, replicate, Option, none, some, get_or,
  if◌then◌else◌,
}
use concurrent_hash_sets.Element.{Element}
use concurrent_hash_sets.Outcome.{
  Outcome, returns, throws, allocation_failed, Allocator, then_return,
}
use concurrent_hash_sets.Table.{home}
use concurrent_hash_sets.Locked
use concurrent_hash_sets.Locked.{Locked}

-- `mutexes` is `mutexes_.size()`.
pub record HashSetStriped (T : Type 0) : Type 0 where
  pub core : Locked T
  pub open core use *
  pub mutexes : ℕ

-- The constructor: the table, then as many mutexes.
pub new : {T : Type 0} → Allocator → ℕ → Outcome (HashSetStriped T)
new mem initial_capacity =
    let n = max 1 initial_capacity in
    if mem.fits n
    then returns (record {
      core = record { table = replicate n []; capacity = n; set_size = 0 };
      mutexes = n;
    })
    else throws allocation_failed

module _ {T : Type 0} ⦃e : Element T⦄ where
  -- `GetMutex`, as the index of the mutex
  unfoldable pub mutex_index : T → HashSetStriped T → ℕ
  mutex_index x s = home x s.mutexes

  -- `Resize`, under every mutex
  unfoldable pub resize : Allocator → HashSetStriped T → HashSetStriped T × Outcome (Unit {0})
  resize mem s = let (c, o) = Locked.resize mem s.core in (record s { core = c }, o)

  -- `Policy()` and `Resize()`, once the mutex is released
  unfoldable pub grow : Allocator → HashSetStriped T → HashSetStriped T × Outcome Bool
  unfolding resize
  grow mem s = if Locked.policy s.core then then_return (resize mem s) true else (s, returns true)

  unfoldable pub add : Allocator → T → HashSetStriped T → HashSetStriped T × Outcome Bool
  unfolding grow
  add mem x s =
      let (c, o) = Locked.add_section mem x s.core in
      let s' : HashSetStriped T = record s { core = c } in
      elim o [
        | throws c ↦ (s', throws c)
        | returns fresh ↦ (if fresh then grow mem s' else (s', returns false))
      ]

  pub remove : T → HashSetStriped T → HashSetStriped T × Bool
  remove x s = let (c, found) = Locked.remove x s.core in (record s { core = c }, found)

  pub contains : T → HashSetStriped T → Bool
  contains x s = Locked.contains x s.core

  pub size : HashSetStriped T → ℕ
  size s = s.set_size
