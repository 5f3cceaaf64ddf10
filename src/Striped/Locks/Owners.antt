-- ===== src/Striped/Locks/Owners.antt =====
-- Who owns which mutex of the striped set.
use concurrent_hash_sets.Base.{
  ℕ, ◌≤◌, ◌<◌, ◌≡◌, ◌≢◌, refl, sym, ◌∙◌, Bool, true, false, none, some, update, update-cases, inl,
  inr, arith,
}
use concurrent_hash_sets.Striped.Locks.{
  Pc, outside, wanting, inside, locking, resizing, unlocking, holds, Locks, Moves, call, resize,
  all_locked, leave, all_unlocked, Acquires, lock, lock_next, Releases, unlock, unlock_next, Step,
  move, acquire, release, Reach, start, later,
}

-- the indices that a thread may stand at
abbrev pub Bounded : ℕ → Pc → Type 0
Bounded n outside = Unit
Bounded n (wanting m) = m < n
Bounded n (inside m) = m < n
Bounded n (locking k) = k ≤ n
Bounded n resizing = Unit
Bounded n (unlocking k) = k ≤ n

pub record Inv (n : ℕ) (s : Locks) : Type 0 where
  pub bounded : (i : ℕ) → Bounded n (s.pc i)
  pub owns : (i j : ℕ) → holds n (s.pc i) j ≡ true → s.owner j ≡ some i
  pub held : (i j : ℕ) → s.owner j ≡ some i → holds n (s.pc i) j ≡ true

move-holds : (n : ℕ) {p q : Pc} → Moves n p q → (j : ℕ) → holds n q j ≡ holds n p j
move-holds n (call h) j = refl
move-holds n resize j = ground arith
move-holds n all_locked j = refl
move-holds n leave j = ground arith
move-holds n all_unlocked j = ground arith

move-Bounded : (n : ℕ) {p q : Pc} → Moves n p q → Bounded n p → Bounded n q
move-Bounded n (call h) b = h
move-Bounded n resize b = omega arith
move-Bounded n all_locked b = tt
move-Bounded n leave b = omega arith
move-Bounded n all_unlocked b = tt

-- A step at `m` changes what the thread holds there, and nowhere else.
record Flips (n m : ℕ) (p q : Pc) (after : Bool) : Type 0 where
  here : holds n q m ≡ after
  before : holds n p m ≡ true → after ≡ false
  elsewhere : (j : ℕ) → m ≢ j → holds n q j ≡ holds n p j
  bounded : Bounded n p → Bounded n q

acquire-Flips : (n : ℕ) {m : ℕ} {p q : Pc} → Acquires n p m q → Flips n m p q true
acquire-Flips n lock = record {
  here = ground arith;
  before = λ h. ground arith;
  elsewhere = λ j d. ground arith;
  bounded = λ b. b;
}
acquire-Flips n (lock_next h) = record {
  here = ground arith;
  before = λ h'. ground arith;
  elsewhere = λ j d. ground arith;
  bounded = λ b. h;
}

release-Flips :
    (n : ℕ) {m : ℕ} {p q : Pc}
    → Releases n p m q
    → (Bounded n p → holds n p m ≡ true) × Flips n m p q false
release-Flips n unlock = (
  λ b. ground arith,
  record { here = refl; before = λ h. refl; elsewhere = λ j d. ground arith; bounded = λ b. tt },
)
release-Flips n (unlock_next h) = (
  λ b. ground arith,
  record {
    here = ground arith;
    before = λ h'. refl;
    elsewhere = λ j d. ground arith;
    bounded = λ b. h;
  },
)

pub some-injective : {A : Type 0} {a b : A} → some a ≡ some b → a ≡ b
some-injective h = cc h

module _ {n : ℕ} {s : Locks} (i : ℕ) (p : Pc) (v : Inv n s) where
  step-Bounded : (Bounded n (s.pc i) → Bounded n p) → (k : ℕ) → Bounded n (update s.pc i p k)
  step-Bounded f k = elim (update-cases s.pc i p k) [
    | inl (q, u) ↦ rw u (f (v.bounded i))
    | inr (q, u) ↦ rw u (v.bounded k)
  ]

  move-Inv : Moves n (s.pc i) p → Inv n (record s { pc = update s.pc i p })
  move-Inv m = record {
    bounded = step-Bounded (move-Bounded n m);
    owns = λ k j h. elim (update-cases s.pc i p k) [
      | inl (q, u) ↦ cc (q, v.owns i j (sym (move-holds n m j) ∙ rw u at h))
      | inr (q, u) ↦ v.owns k j (rw u at h)
    ];
    held = λ k j h. elim (update-cases s.pc i p k) [
      | inl (q, u) ↦ rw u (move-holds n m j ∙ v.held i j (cc (q, h)))
      | inr (q, u) ↦ rw u (v.held k j h)
    ];
  }

  acquire-Inv :
      {m : ℕ}
      → s.owner m ≡ none
      → Acquires n (s.pc i) m p
      → Inv n (record { owner = update s.owner m (some i); pc = update s.pc i p })
  acquire-Inv {m} free a =
      let f = acquire-Flips n a in
      record {
        bounded = step-Bounded f.bounded;
        owns = λ k j h. elim (update-cases s.pc i p k) [
          | inl (r, u) ↦ elim (update-cases s.owner m (some i) j) [
            | inl (q, o) ↦ cc (o, r)
            | inr (q, o) ↦ cc (o, r, v.owns i j (sym (f.elsewhere j q) ∙ rw u at h))
          ]
          | inr (r, u) ↦
              let mine = v.owns k j (rw u at h) in
              elim (update-cases s.owner m (some i) j) [
                | inl (q, o) ↦ cc (q, free, mine)
                | inr (q, o) ↦ cc (o, mine)
              ]
        ];
        held = λ k j h. elim (update-cases s.owner m (some i) j) [
          | inl (q, o) ↦ elim (update-cases s.pc i p k) [
            | inl (r, u) ↦ rw u (cc (q, f.here))
            | inr (r, u) ↦ absurd (r (some-injective (cc (o, h))))
          ]
          | inr (q, o) ↦
              let old = v.held k j (cc (o, h)) in
              elim (update-cases s.pc i p k) [
                | inl (r, u) ↦ rw u (f.elsewhere j q ∙ cc (r, old))
                | inr (r, u) ↦ rw u old
              ]
        ];
      }

  release-Inv :
      {m : ℕ}
      → Releases n (s.pc i) m p
      → Inv n (record { owner = update s.owner m none; pc = update s.pc i p })
  release-Inv {m} a =
      let (kept, f) = release-Flips n a in
      let mine = v.owns i m (kept (v.bounded i)) in
      record {
        bounded = step-Bounded f.bounded;
        owns = λ k j h. elim (update-cases s.pc i p k) [
          | inl (r, u) ↦ elim (update-cases s.owner m none j) [
            | inl (q, o) ↦ cc (q, f.here, u, h)
            | inr (q, o) ↦ cc (o, r, v.owns i j (sym (f.elsewhere j q) ∙ rw u at h))
          ]
          | inr (r, u) ↦
              let other = v.owns k j (rw u at h) in
              elim (update-cases s.owner m none j) [
                | inl (q, o) ↦ absurd (r (some-injective (cc (q, mine, other))))
                | inr (q, o) ↦ cc (o, other)
              ]
        ];
        held = λ k j h. elim (update-cases s.owner m none j) [
          | inl (q, o) ↦ cc (o, h)
          | inr (q, o) ↦
              let old = v.held k j (cc (o, h)) in
              elim (update-cases s.pc i p k) [
                | inl (r, u) ↦ rw u (f.elsewhere j q ∙ cc (r, old))
                | inr (r, u) ↦ rw u old
              ]
        ];
      }

Step-Inv : {n : ℕ} {s : Locks} (i : ℕ) {t : Locks} → Step n s i t → Inv n s → Inv n t
Step-Inv i (move {p} m) v = move-Inv i p v m
Step-Inv i (acquire {p} free a) v = acquire-Inv i p v free a
Step-Inv i (release {p} a) v = release-Inv i p v a

pub Reach-Inv : {n : ℕ} {s : Locks} → Reach n s → Inv n s
Reach-Inv start = record { bounded = λ i. tt; owns = λ i j h. cc; held = λ i j h. cc }
Reach-Inv (later i r st) = Step-Inv i st (Reach-Inv r)
