-- ===== src/CoarseGrained/Threads/Progress.antt =====
-- How a thread inside a section of the coarse-grained set goes on.
use concurrent_hash_sets.Base.{
  ℕ, zero, suc, ◌*◌, ◌%◌, ◌<◌, ◌≡◌, refl, inl, inr, true, none, arith, Bool-cases, update,
  update_self,
}
use concurrent_hash_sets.Table.{refilled}
use concurrent_hash_sets.Element.{Element, word}
use concurrent_hash_sets.Outcome.{Allocator}
use concurrent_hash_sets.History.{add, remove, contains, Label}
use concurrent_hash_sets.Locked
use concurrent_hash_sets.Locked.{Locked}
use concurrent_hash_sets.CoarseGrained.Threads.{
  Pc, locked, adding, removing, push_failed, pushed, dropped, unlocking, resize_locked, built,
  rehashed, resize_unlocking, Releases, unlock_section, unlock_failed, unlock_resize, Inside, found,
  absent, no_room, push, count_up, missing, present, drop, count_down, look, already, no_memory,
  build, stopped, replace_table, store_capacity, System, Step, release, inside,
}
use concurrent_hash_sets.CoarseGrained.Threads.Invariant.{holds}

-- at most this many steps to the release
abbrev rank : {T : Type 0} → Pc T → ℕ
rank (locked op) = 4
rank (adding x) = 3
rank (removing x) = 3
rank (push_failed x) = 1
rank (pushed x) = 2
rank (dropped x) = 2
rank (unlocking op b) = 1
rank (resize_locked x) = 4
rank (built x n fresh) = 3
rank (rehashed x n) = 2
rank (resize_unlocking x o) = 1
rank _ = 0

module _ {T : Type 0} ⦃e : Element T⦄ where
  -- The thread can leave the section, or take a step inside it that brings it nearer to the end.
  data Next (mem : Allocator) (c : Locked T) (p : Pc T) : Type 0 where
    leave : (p' : Pc T) → Releases p p' → Next mem c p
    go :
        {l : Label T} {c' : Locked T} (p' : Pc T)
        → Inside mem c p l c' p'
        → holds p' ≡ true
        → rank p' < rank p
        → Next mem c p

  next : (mem : Allocator) (c : Locked T) (p : Pc T) → holds p ≡ true → Next mem c p
  next mem c (locked (add x)) h = elim (Bool-cases (Locked.contains x c)) [
    | inl q ↦ go _ (found q) refl (omega arith)
    | inr q ↦ go _ (absent q) refl (omega arith)
  ]
  next mem c (locked (remove x)) h = elim (Bool-cases (Locked.contains x c)) [
    | inl q ↦ go _ (present q) refl (omega arith)
    | inr q ↦ go _ (missing q) refl (omega arith)
  ]
  next mem c (locked (contains x)) h = go _ look refl (omega arith)
  next mem c (adding x) h = elim (Bool-cases mem.appends) [
    | inl q ↦ go _ (push q) refl (omega arith)
    | inr q ↦ go _ (no_room q) refl (omega arith)
  ]
  next mem c (push_failed x) h = leave _ unlock_failed
  next mem c (removing x) h = go _ drop refl (omega arith)
  next mem c (pushed x) h = go _ count_up refl (omega arith)
  next mem c (dropped x) h = go _ count_down refl (omega arith)
  next mem c (unlocking op b) h = leave _ unlock_section
  next mem c (resize_locked x) h = elim (Bool-cases (Locked.policy c)) [
    | inr q ↦ go _ (already q) refl (omega arith)
    | inl q ↦ elim (Bool-cases (mem.fits (2 * c.capacity % word))) [
      | inl f ↦ elim (Bool-cases (refilled mem c.table)) [
        | inl all ↦ go _ (build q f all) refl (omega arith)
        | inr some_left ↦ go _ (stopped q f some_left) refl (omega arith)
      ]
      | inr f ↦ go _ (no_memory q f) refl (omega arith)
    ]
  ]
  next mem c (built x n fresh) h = go _ replace_table refl (omega arith)
  next mem c (rehashed x n) h = go _ store_capacity refl (omega arith)
  next mem c (resize_unlocking x o) h = leave _ unlock_resize
  next mem c _ h = cc

  rank-lt : (p : Pc T) → rank p < 5
  rank-lt (locked op) = omega arith
  rank-lt _ = omega arith

  module _ (mem : Allocator) where
    -- The steps of thread `i` alone, from one state to another, all with the allocator `mem`.
    pub data Alone (s : System T) (i : ℕ) : System T → Type 0 where
      stay : Alone s i s
      step : {l : Label T} {t u : System T} → Alone s i t → Step mem t i l u → Alone s i u

    abbrev pub Releasing : System T → ℕ → Type 0
    Releasing s i = (t : System T) × Alone s i t × (t.owner ≡ none)

    finish :
        (k : ℕ) (s t : System T) (i : ℕ)
        → Alone s i t
        → holds (t.pc i) ≡ true
        → rank (t.pc i) < k
        → Releasing s i
    finish zero s t i a h m = absurd (omega arith)
    finish (suc k) s t i a h m = continue (next mem t.core (t.pc i) h) (finish k)
      where
        continue :
            Next mem t.core (t.pc i)
            → ((s' t' : System T) (i' : ℕ)
                → Alone s' i' t'
                → holds (t'.pc i') ≡ true
                → rank (t'.pc i') < k
                → Releasing s' i')
            → Releasing s i
        continue (leave p' r) rec = (_, step a (release r), refl)
        continue (go {c'} p' r h' m') rec =
            rec s (record t { core = c'; pc = update t.pc i p' }) i (step a (inside r))
              (rw (update_self t.pc i p') h') (rw (update_self t.pc i p') (omega arith))

    -- A thread inside a critical section of the coarse-grained set can always go on by its own
    -- steps alone until the mutex is free, whatever memory the allocator refuses.
    pub section_ends : (s : System T) (i : ℕ) → holds (s.pc i) ≡ true → Releasing s i
    section_ends s i h = finish 5 s s i stay h (rank-lt (s.pc i))
