-- ===== src/CoarseGrained/Threads.antt =====
-- src/HashSetCoarseGrained.h with any number of threads, a lock operation or a shared access at a
-- time. Inside a critical section a search, a write to a protected member, and an update of an
-- atomic member are steps of their own, and a step inside a section does not ask who holds the
-- mutex. `Policy` outside the lock is two loads.
pub mod Sections
pub mod Invariant
pub mod Owners
pub mod Preserve
pub mod Linearizable
pub mod Progress
use concurrent_hash_sets.Base.{
  ℕ, ◌*◌, ◌%◌, ◌≡◌, Bool, true, false, List, [], Option, none, some, replicate, update, max,
}
use concurrent_hash_sets.Element.{Element, word}
use concurrent_hash_sets.Outcome.{
  Outcome, returns, throws, allocation_failed, Allocator, then_return,
}
use concurrent_hash_sets.Table.{Table, rehash, refilled, spoil}
use concurrent_hash_sets.History.{
  Op, add, remove, contains, Label, silent, did, Event, record_event,
}
use concurrent_hash_sets.Locked
use concurrent_hash_sets.Locked.{Locked, over_load}

-- Where a thread stands, with the local variables that are live there.
pub data Pc (T : Type 0) : Type 0 where
  idle : Pc T
  entering : Op T → Pc T  -- before the lock of the method
  locked : Op T → Pc T  -- the lock is held, nothing is read yet
  adding : T → Pc T  -- `Add`, once `find` has come to the end
  removing : T → Pc T  -- `Remove`, once `find` has found the element
  push_failed : T → Pc T  -- `Add`, when an exception of `push_back` leaves the section
  pushed : T → Pc T  -- `Add`, between `push_back` and `fetch_add`
  dropped : T → Pc T  -- `Remove`, between `erase` and `fetch_sub`
  unlocking : Op T → Bool → Pc T  -- the answer is known
  policy_capacity : T → Pc T  -- `Policy()` in `Add`: before the load of `capacity_`
  policy_size : T → ℕ → Pc T  -- before the load of `set_size_`, with the capacity
  resizing : T → Pc T  -- before the lock of `Resize`
  resize_locked : T → Pc T
  built : T → ℕ → Table T → Pc T  -- `new_table` is filled, of `new_capacity` buckets
  rehashed : T → ℕ → Pc T  -- `table_` is replaced, `capacity_` is not
  resize_unlocking : T → Outcome (Unit {0}) → Pc T
  returning : Op T → Outcome Bool → Pc T

-- where a method goes on once its first section is left
abbrev pub after_section : {T : Type 0} → Op T → Bool → Pc T
after_section (add x) true = policy_capacity x
after_section op b = returning op (returns b)

-- Steps that touch no protected member and no lock; `c` is the shared state that they load from.
pub data Outside {T : Type 0} (c : Locked T) : Pc T → Pc T → Type 0 where
  call : (op : Op T) → Outside c idle (entering op)
  load_capacity : {x : T} → Outside c (policy_capacity x) (policy_size x c.capacity)
  under :
      {x : T} {capacity : ℕ}
      → over_load capacity c.set_size ≡ false
      → Outside c (policy_size x capacity) (returning (add x) (returns true))
  over :
      {x : T} {capacity : ℕ}
      → over_load capacity c.set_size ≡ true
      → Outside c (policy_size x capacity) (resizing x)
  return : {op : Op T} {o : Outcome Bool} → Outside c (returning op o) idle

-- The constructor of a `scoped_lock`.
pub data Acquires {T : Type 0} : Pc T → Pc T → Type 0 where
  lock_section : {op : Op T} → Acquires (entering op) (locked op)
  lock_resize : {x : T} → Acquires (resizing x) (resize_locked x)

-- Its destructor, on a return and on an exception.
pub data Releases {T : Type 0} : Pc T → Pc T → Type 0 where
  unlock_section : {op : Op T} {b : Bool} → Releases (unlocking op b) (after_section op b)
  unlock_failed : {x : T} → Releases (push_failed x) (returning (add x) (throws allocation_failed))
  unlock_resize :
      {x : T} {o : Outcome (Unit {0})}
      → Releases (resize_unlocking x o) (returning (add x) (then_return (tt, o) true).1)

-- Steps inside a critical section, where `mem` answers the step's requests for memory. The loop
-- that fills the new table is one step, or ends at a `push_back` that is refused.
pub data Inside {T : Type 0} ⦃e : Element T⦄ (mem : Allocator) (c : Locked T)
    : Pc T → Label T → Locked T → Pc T → Type 0 where
  found :
      {x : T}
      → Locked.contains x c ≡ true
      → Inside mem c (locked (add x)) (did (add x) false) c (unlocking (add x) false)
  absent : {x : T} → Locked.contains x c ≡ false → Inside mem c (locked (add x)) silent c (adding x)
  no_room : {x : T} → mem.appends ≡ false → Inside mem c (adding x) silent c (push_failed x)
  push :
      {x : T}
      → mem.appends ≡ true
      → Inside mem c (adding x) (did (add x) true) (Locked.push x c) (pushed x)
  count_up : {x : T} → Inside mem c (pushed x) silent (Locked.count_up c) (unlocking (add x) true)
  missing :
      {x : T}
      → Locked.contains x c ≡ false
      → Inside mem c (locked (remove x)) (did (remove x) false) c (unlocking (remove x) false)
  present :
      {x : T} → Locked.contains x c ≡ true → Inside mem c (locked (remove x)) silent c (removing x)
  drop : {x : T} → Inside mem c (removing x) (did (remove x) true) (Locked.drop x c) (dropped x)
  count_down :
      {x : T} → Inside mem c (dropped x) silent (Locked.count_down c) (unlocking (remove x) true)
  look :
      {x : T}
      → Inside mem c
          (locked (contains x))
          (did (contains x) (Locked.contains x c))
          c
          (unlocking (contains x) (Locked.contains x c))
  already :
      {x : T}
      → Locked.policy c ≡ false
      → Inside mem c (resize_locked x) silent c (resize_unlocking x (returns tt))
  no_memory :
      {x : T}
      → Locked.policy c ≡ true
      → mem.fits (2 * c.capacity % word) ≡ false
      → Inside mem c (resize_locked x) silent c (resize_unlocking x (throws allocation_failed))
  build :
      {x : T}
      → Locked.policy c ≡ true
      → mem.fits (2 * c.capacity % word) ≡ true
      → refilled mem c.table ≡ true
      → Inside mem c
          (resize_locked x)
          silent
          c
          (built x (2 * c.capacity % word) (rehash (2 * c.capacity % word) c.table))
  stopped :
      {x : T}
      → Locked.policy c ≡ true
      → mem.fits (2 * c.capacity % word) ≡ true
      → refilled mem c.table ≡ false
      → Inside mem c
          (resize_locked x)
          silent
          (record c { table = spoil mem.refills c.table })
          (resize_unlocking x (throws allocation_failed))
  replace_table :
      {x : T} {n : ℕ} {fresh : Table T}
      → Inside mem c (built x n fresh) silent (record c { table = fresh }) (rehashed x n)
  store_capacity :
      {x : T} {n : ℕ}
      → Inside mem c
          (rehashed x n)
          silent
          (record c { capacity = n })
          (resize_unlocking x (returns tt))

-- The shared members, the owner of `mutex_`, and the threads.
pub record System (T : Type 0) : Type 0 where
  pub core : Locked T
  pub owner : Option ℕ
  pub pc : ℕ → Pc T

-- Thread `i` makes a step, with `mem` as the allocator. That a thread inside a section owns the mutex is no premise here.
pub data Step {T : Type 0} ⦃e : Element T⦄ (mem : Allocator) (s : System T) (i : ℕ)
    : Label T → System T → Type 0 where
  outside :
      {p : Pc T}
      → Outside s.core (s.pc i) p
      → Step mem s i silent (record s { pc = update s.pc i p })
  acquire :
      {p : Pc T}
      → s.owner ≡ none
      → Acquires (s.pc i) p
      → Step mem s i silent (record s { owner = some i; pc = update s.pc i p })
  release :
      {p : Pc T}
      → Releases (s.pc i) p
      → Step mem s i silent (record s { owner = none; pc = update s.pc i p })
  inside :
      {l : Label T} {c : Locked T} {p : Pc T}
      → Inside mem s.core (s.pc i) l c p
      → Step mem s i l (record s { core = c; pc = update s.pc i p })

-- an empty set of `n` buckets, before any thread has called it
abbrev pub initial : {T : Type 0} → ℕ → System T
initial n = record {
  core = record { table = replicate n []; capacity = n; set_size = 0 };
  owner = none;
  pc = λ _. idle;
}

-- The states that threads can reach in any order, whatever memory the allocator refuses at each step,
-- with the events on the way.
pub data ReachAny {T : Type 0} ⦃e : Element T⦄ (n : ℕ) : List (Event T) → System T → Type 0 where
  any_start : ReachAny n [] (initial n)
  any_later :
      {h : List (Event T)} {s t : System T} {l : Label T} {mem : Allocator} (i : ℕ)
      → ReachAny n h s
      → Step mem s i l t
      → ReachAny n (record_event i l h) t

-- The states that they can reach while the `push_back`s of `Resize` get their memory. A `push_back` that is refused would leave a table of elements that have been moved
-- from. What else the allocator answers may change at each step.
pub data Reach {T : Type 0} ⦃e : Element T⦄ (n : ℕ) : List (Event T) → System T → Type 0 where
  start : Reach n [] (initial n)
  later :
      {h : List (Event T)} {s t : System T} {l : Label T} {mem : Allocator} (i : ℕ)
      → Reach n h s
      → refilled mem s.core.table ≡ true
      → Step mem s i l t
      → Reach n (record_event i l h) t
