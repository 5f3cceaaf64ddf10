-- ===== src/Striped/Locks/Deadlock.antt =====
-- Threads of the striped set that wait for mutexes.
use concurrent_hash_sets.Base.{
  ℕ, zero, suc, ◌+◌, ◌<◌, ◌≡◌, ◌≢◌, refl, inl, inr, true, Option-cases, dec_lt, arith, ltb→lt,
  lt→ltb, sym, ◌∙◌,
}
use concurrent_hash_sets.Striped.Locks.{
  Pc, outside, wanting, inside, locking, resizing, unlocking, holds, Locks, Moves, all_locked,
  leave, all_unlocked, Acquires, lock, lock_next, Releases, unlock, unlock_next, Step, move,
  acquire, release, Reach,
}
use concurrent_hash_sets.Striped.Locks.Owners.{Bounded, Inv, Reach-Inv, some-injective}

-- Some thread that is in a call can make a step.
abbrev pub CanGoOn : ℕ → Locks → Type 0
CanGoOn n s = (i : ℕ) × (s.pc i ≢ outside) × (t : Locks) × Step n s i t

-- the next mutex that a thread waits for, if it does
front : ℕ → Pc → ℕ
front n (wanting m) = m
front n (locking k) = k
front n _ = n

-- Who holds a mutex waits for a later one only.
holds-front : (n m : ℕ) (p : Pc) → m < n → holds n p m ≡ true → (p ≢ outside) × (m < front n p)
unfolding front
holds-front n m outside h q = cc
holds-front n m (wanting k) h q = cc
holds-front n m (inside k) h q = (λ e. cc, h)
holds-front n m (locking k) h q = (λ e. cc, ltb→lt m k q)
holds-front n m resizing h q = (λ e. cc, h)
holds-front n m (unlocking k) h q = (λ e. cc, h)

module _ {n : ℕ} {s : Locks} (v : Inv n s) where
  moves : (i : ℕ) (q : Pc) → s.pc i ≢ outside → Moves n (s.pc i) q → CanGoOn n s
  moves i q d m = (i, d, _, move m)

  releases : (i m : ℕ) (q : Pc) → s.pc i ≢ outside → Releases n (s.pc i) m q → CanGoOn n s
  releases i m q d r = (i, d, _, release r)

  -- A thread at a mutex takes it, or its owner goes on.
  waits :
      (i m : ℕ) (q : Pc)
      → s.pc i ≢ outside
      → m < n
      → Acquires n (s.pc i) m q
      → ((k : ℕ) → s.pc k ≢ outside → m < front n (s.pc k) → CanGoOn n s)
      → CanGoOn n s
  waits i m q d h a owner_goes = elim (Option-cases (s.owner m)) [
    | inl free ↦ (i, d, _, acquire free a)
    | inr (k, owned) ↦
        let (d', ahead) = holds-front n m (s.pc k) h (v.held k m owned) in owner_goes k d' ahead
  ]

  goes_on :
      (f i : ℕ) (p : Pc) → s.pc i ≡ p → Bounded n p → p ≢ outside → n < front n p + f → CanGoOn n s
  unfolding front
  goes_on f i outside e b d room = absurd (d refl)
  goes_on f i (inside m) e b d room = releases i m outside (rw e d) (rw e unlock)
  goes_on f i resizing e b d room = moves i (unlocking 0) (rw e d) (rw e leave)
  goes_on f i (unlocking k) e b d room = elim (dec_lt k n) [
    | yes more ↦ releases i k (unlocking (suc k)) (rw e d) (rw e (unlock_next more))
    | no last ↦ let q : k ≡ n = omega arith in moves i outside (rw e d) (rw (e, q) all_unlocked)
  ]
  goes_on zero i (wanting m) e b d room = absurd (omega arith)
  goes_on (suc f) i (wanting m) e b d room =
      waits i m (inside m) (rw e d) b (rw e lock)
        (λ k d' h. goes_on f k (s.pc k) refl (v.bounded k) d' (unfold front in omega arith))
  goes_on zero i (locking k) e b d room = absurd (omega arith)
  goes_on (suc f) i (locking k) e b d room = elim (dec_lt k n) [
    | no last ↦ let q : k ≡ n = omega arith in moves i resizing (rw e d) (rw (e, q) all_locked)
    | yes more ↦
        waits i k (locking (suc k)) (rw e d) more (rw e (lock_next more))
          (λ j d' h. goes_on f j (s.pc j) refl (v.bounded j) d' (unfold front in omega arith))
  ]

-- In any state that any number of threads on the mutexes of the striped set can reach, if a thread
-- is in a call, then some thread that is in a call can make a step.
pub no_deadlock : {n : ℕ} {s : Locks} (i : ℕ) → Reach n s → s.pc i ≢ outside → CanGoOn n s
no_deadlock {n} {s} i r d =
    let v = Reach-Inv r in goes_on v (suc n) i (s.pc i) refl (v.bounded i) d (omega arith)

-- In any reachable state, while a thread that is through with ScopedVectorLock resizes, no other
-- thread holds any of the mutexes.
pub resize_excludes :
    {n : ℕ} {s : Locks} (i k m : ℕ)
    → Reach n s
    → s.pc i ≡ resizing
    → m < n
    → holds n (s.pc k) m ≡ true
    → i ≡ k
resize_excludes {n} {s} i k m r here h other =
    let v = Reach-Inv r in
    some-injective (sym (v.owns i m (rw here (lt→ltb m n h))) ∙ v.owns k m other)
