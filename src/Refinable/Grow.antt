-- ===== src/Refinable/Grow.antt =====
-- `Resize` and `Add` of src/HashSetRefinable.h while memory lasts.
use concurrent_hash_sets.Base.{
  ℕ, suc, ◌*◌, ◌%◌, ◌≡◌, refl, inl, inr, Bool, true, false, not, some, set, Bool-cases, arith,
}
use concurrent_hash_sets.Element.{Element, word}
use concurrent_hash_sets.Outcome.{Outcome, returns, Allocator}
use concurrent_hash_sets.Table.{rehash, refilled}
use concurrent_hash_sets.Table.Contents.{rehash-HoldsSet, rehash-Updates}
use concurrent_hash_sets.Locked
use concurrent_hash_sets.Locked.{Locked}
use concurrent_hash_sets.Locked.Laws.{Changes, same-Changes, insert-Changes, insert-capacity}
use concurrent_hash_sets.Refinable.{
  HashSetRefinable, Run, done, scoped_lock, spinning, fill_new_table, resize, grow, finish_add, add,
}
use concurrent_hash_sets.Refinable.Places.{HasArena, quiesce-done, enlarge-done, grown-HasArena}
use concurrent_hash_sets.Refinable.Laws.{
  IsValid, own_lock, mid_resize, spins, scoped_lock-done, insert_at-found, insert_at-new, set_core,
}

module _ {T : Type 0} ⦃e : Element T⦄ where
  unfoldable pub busy : HashSetRefinable T → HashSetRefinable T
  busy s = record s { resizing = true }

  pub busy-HasArena :
      {rounds : ℕ} {s : HashSetRefinable T} → HasArena rounds s → HasArena rounds (busy s)
  unfolding busy
  busy-HasArena a = record {
    power = a.power;
    small = a.small;
    allocated = a.allocated;
    unused = a.unused;
    slots = a.slots;
  }

  -- the set after a resize
  enlarged : ℕ → HashSetRefinable T → HashSetRefinable T
  enlarged rounds s = record {
    core = record {
      table = rehash (2 * s.capacity % word) s.table;
      capacity = 2 * s.capacity % word;
      set_size = s.set_size;
    };
    initial_shift = s.initial_shift;
    arena = set s.arena (suc rounds) (some s.capacity);
    resizing = false;
  }

  module _ (mem : Allocator) {rounds : ℕ} {s : HashSetRefinable T} (v : IsValid rounds s)
      (mutexes : mem.fits s.capacity ≡ true) (buckets : mem.fits (2 * s.capacity % word) ≡ true)
      (all : refilled mem s.table ≡ true) where
    resize-done : Locked.policy s.core ≡ true → resize mem s ≡ done (enlarged rounds s, returns tt)
    unfolding resize fill_new_table enlarged busy
    resize-done over =
        let a = busy-HasArena v.has_arena in
        simp (
          v.idle,
          over,
          quiesce-done a s.capacity 0 (omega arith),
          enlarge-done a mem mutexes,
          buckets,
          all,
        )

    enlarged-IsValid : IsValid (suc rounds) (enlarged rounds s)
    unfolding enlarged
    enlarged-IsValid =
        let double : 2 * s.capacity % word ≡ 2 * s.capacity = omega (arith, v.has_arena.small) in
        record {
          holds =
              rehash-HoldsSet (2 * s.capacity % word) v.holds
                (omega (arith, v.holds.is_placed.roomy)) (mem.fits_small _ buckets);
          has_arena =
              grown-HasArena v.has_arena double (omega (arith, mem.fits_small _ buckets, double));
          idle = refl;
        }

  -- The end of an operation on `x` in a state `s`: a valid set `t` that has changed as it should.
  abbrev pub Grown :
      {s : HashSetRefinable T} {rounds : ℕ}
      → IsValid rounds s
      → T
      → Run (HashSetRefinable T × Outcome Bool)
      → Bool
      → Type 0
  Grown v x r b =
      (rounds' : ℕ) × (t : HashSetRefinable T) × (r ≡ done (t, returns b))
      × IsValid rounds' t
      × Changes v.holds x true t.core

  module _ (mem : Allocator) {rounds : ℕ} {s : HashSetRefinable T} (v : IsValid rounds s)
      (x : T) where
    grow-Grown :
        {rounds' : ℕ} {t : HashSetRefinable T}
        → IsValid rounds' t
        → Changes v.holds x true t.core
        → mem.fits t.capacity ≡ true
        → mem.fits (2 * t.capacity % word) ≡ true
        → refilled mem t.table ≡ true
        → Grown v x (grow mem t) true
    unfolding grow
    grow-Grown {rounds'} {t} w u mutexes buckets all = elim (Bool-cases (Locked.policy t.core)) [
      | inl over ↦ (
        suc rounds',
        enlarged rounds' t,
        rw (over, resize-done mem w mutexes buckets all over),
        enlarged-IsValid mem w mutexes buckets all,
        unfold enlarged in
            rehash-Updates v.holds x (2 * t.capacity % word) u
              (omega (arith, w.holds.is_placed.roomy, w.has_arena.small))
              (mem.fits_small _ buckets),
      )
      | inr under ↦ (rounds', t, rw under, w, u)
    ]

    -- What `Add` of `x` in `s` does under the mutex of the element's own bucket.
    abbrev pub Added : ℕ → Bool → Type 0
    Added fuel b =
        (scoped_lock fuel x s ≡ done (own_lock v x))
        × (add fuel mem x (mid_resize v x) ≡ spinning)
        × Grown v x (add fuel mem x s) b

    -- While a table of twice the buckets, mutexes for the present number of them and room for the
    -- elements in their buckets can be allocated, Add of a valid refinable set takes the mutex of
    -- the element's own bucket, ends with no assertion failed, answers whether the element was
    -- absent, and leaves a valid set with the element in it and the others as before; while a
    -- resize is under way it never gets past its lock.
    pub add_lem :
        (fuel : ℕ)
        → mem.fits s.capacity ≡ true
        → mem.fits (2 * s.capacity % word) ≡ true
        → mem.appends ≡ true
        → refilled mem (Locked.insert x s.core).0.table ≡ true
        → Added (suc fuel) (not (Locked.contains x s.core))
    unfolding add finish_add
    add_lem fuel mutexes buckets room all =
        let waits : add (suc fuel) mem x (mid_resize v x) ≡ spinning =
          rw (spins (suc fuel) x (mid_resize v x) refl) in
        let u = insert-Changes v.holds x in
        let c = (Locked.insert x s.core).0 in
        let same = insert-capacity x s.core in
        let w = set_core v x u.holds same in
        elim (Bool-cases (Locked.contains x s.core)) [
          | inl present ↦
              let run : add (suc fuel) mem x s
                  ≡ done (s, returns (not (Locked.contains x s.core))) =
                rw (scoped_lock-done v x fuel, insert_at-found v x mem present, present) in
              (
                scoped_lock-done v x fuel,
                waits,
                (rounds, s, run, v, same-Changes v.holds x true present),
              )
          | inr absent ↦
              let (r, t, run, valid, changed) =
                grow-Grown w u (rw same mutexes) (rw same buckets) all in
              let ended : add (suc fuel) mem x s
                  ≡ done (t, returns (not (Locked.contains x s.core))) =
                rw (scoped_lock-done v x fuel, insert_at-new v x mem absent room, absent) run in
              (scoped_lock-done v x fuel, waits, (r, t, ended, valid, changed))
        ]
