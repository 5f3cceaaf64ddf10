-- ===== src/Tests/Locks.antt =====
-- Two threads on two mutexes of the striped set: the first resizes, the second waits.
use concurrent_hash_sets.Base.{ℕ, ◌≡◌, refl, ℕ_discrete, update, some, arith}
use concurrent_hash_sets.Striped.Locks.{
  Locks, at_first, Reach, start, later, move, acquire, call, resize, all_locked, lock_next, wanting,
  locking, resizing,
}
use concurrent_hash_sets.Striped.Locks.Deadlock.{CanGoOn, no_deadlock, resize_excludes}

abbrev begun : Locks
begun = record at_first { pc = update at_first.pc 0 (locking 0) }

abbrev one_locked : Locks
one_locked = record { owner = update begun.owner 0 (some 0); pc = update begun.pc 0 (locking 1) }

abbrev one_waits : Locks
one_waits = record one_locked { pc = update one_locked.pc 1 (wanting 0) }

abbrev both_locked : Locks
both_locked = record {
  owner = update one_waits.owner 1 (some 0);
  pc = update one_waits.pc 0 (locking 2);
}

abbrev resizes : Locks
resizes = record both_locked { pc = update both_locked.pc 0 resizing }

to_one_waits : Reach 2 one_waits
unfolding ℕ_discrete
to_one_waits =
    later 1 (later 0 (later 0 start (move resize)) (acquire refl (lock_next (omega arith))))
      (move (call (omega arith)))

to_resizes : Reach 2 resizes
unfolding ℕ_discrete
to_resizes =
    later 0 (later 0 to_one_waits (acquire refl (lock_next (omega arith)))) (move all_locked)

no_deadlock_example : CanGoOn 2 one_waits
unfolding ℕ_discrete
no_deadlock_example = no_deadlock 1 to_one_waits (λ e. cc)

resize_excludes_example : ◌≡◌ {A = ℕ} 0 0
unfolding ℕ_discrete
resize_excludes_example = resize_excludes 0 0 1 to_resizes refl (omega arith) refl
