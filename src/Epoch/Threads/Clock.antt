-- ===== src/Epoch/Threads/Clock.antt =====
-- How far the epoch of src/EpochReclaimer.h goes while a thread is inside a guard.
use mathlib.Core.Path.{subst}
use concurrent_hash_sets.Base.{
  ℕ, suc, ◌+◌, ◌≤◌, ◌<◌, ◌≡◌, ◌≢◌, ◌⊎◌, inl, inr, refl, sym, ◌∙◌, ap, Bool, true, false, List, [],
  ◌∷◌, update, update_self, update_ne, ℕ_discrete, Bool-cases, arith,
}
use concurrent_hash_sets.Element.{word}
use concurrent_hash_sets.Word.{add_word}
use concurrent_hash_sets.MarkableReference.{Address}
use concurrent_hash_sets.Epoch.{Participant, enter, leave, renew_bag, retire_node, count_retire}
use concurrent_hash_sets.Epoch.Threads.{
  Pc, outside, entering, inside, advancing, loaded, glancing, fencing, fenced, scanning, releasing,
  System, initial, In, first, rest, lags, Retired, Step, adopt, begin, announce, hand_over, end,
  load_epoch, load_members, glance, give_up, glanced, taken, take, fence_fails, fence, scan,
  scan_fails, swap, swap_fails, release, Reach, start, later, guarded,
}

-- a slot whose announcement a scan for `g` has yet to read, or one that is not behind `g`
abbrev pub Ahead : System → ℕ → List ℕ → Type 0
Ahead s g js = (j : ℕ) → guarded (s.pc j) ≡ true → In j js ⊎ (g ≤ s.entry j)

-- What a thread relies on where it stands.
pub Knows : System → ℕ → Pc → Type 0
Knows s i outside = Unit
Knows s i (entering e) = (e ≤ s.epoch) × In i s.members
Knows s i (scanning g js) = (g ≤ s.epoch) × Ahead s g js
Knows s i (fenced g) = g ≤ s.epoch
Knows s i (fencing g) = g ≤ s.epoch
Knows s i (glancing g js) = g ≤ s.epoch
Knows s i (loaded g) = g ≤ s.epoch
Knows s i _ = Unit

pub record Inv (s : System) : Type 0 where
  pub bounded : s.epoch + 4 < word
  pub member : (i : ℕ) → guarded (s.pc i) ≡ true → In i s.members
  pub announces : (i : ℕ) → guarded (s.pc i) ≡ true → (s.slot i).epoch ≤ s.entry i
  pub entered : (i : ℕ) → guarded (s.pc i) ≡ true → s.entry i ≤ s.epoch
  pub held : (i : ℕ) → guarded (s.pc i) ≡ true → s.epoch ≤ suc (s.entry i)
  pub knows : (i : ℕ) → Knows s i (s.pc i)

module _ {s : System} (inv : Inv s) (i : ℕ) where
  -- a step inside a guard that touches no slot and no epoch
  Knows-same :
      (p : Pc) (b : Bool) (j : ℕ) (c : Pc)
      → guarded (s.pc i) ≡ guarded p
      → Knows s j c
      → Knows (record s { pc = update s.pc i p; busy = b }) j c
  unfolding Knows
  Knows-same p b j (scanning g js) q (l, a) = (l, λ k r. a k (ground (arith, q, r)))
  Knows-same p b j outside q k = tt
  Knows-same p b j (entering e) q k = k
  Knows-same p b j inside q k = tt
  Knows-same p b j advancing q k = tt
  Knows-same p b j (glancing g js) q k = k
  Knows-same p b j (loaded g) q k = k
  Knows-same p b j (fencing g) q k = k
  Knows-same p b j (fenced g) q k = k
  Knows-same p b j releasing q k = tt

  stand :
      (p : Pc) (b : Bool)
      → guarded (s.pc i) ≡ guarded p
      → Knows s i p
      → Inv (record s { pc = update s.pc i p; busy = b })
  stand p b q k = record {
    bounded = inv.bounded;
    member = λ j r. inv.member j (ground (arith, q, r));
    announces = λ j r. inv.announces j (ground (arith, q, r));
    entered = λ j r. inv.entered j (ground (arith, q, r));
    held = λ j r. inv.held j (ground (arith, q, r));
    knows = λ j. elim (ℕ_discrete i j) [
      | yes z ↦ rw (← z, update_self s.pc i p) (Knows-same p b i p q k)
      | no z ↦ rw (update_ne s.pc i j p z) (Knows-same p b j (s.pc j) q (inv.knows j))
    ];
  }

  known : (c : Pc) → s.pc i ≡ c → Knows s i c
  known c q = rw q at (inv.knows i)

  -- A step from `s` to `t` after which thread `i` knows what it needs, and the others still do.
  known_by :
      (t : System) (p : Pc)
      → t.pc ≡ update s.pc i p
      → Knows t i p
      → ((j : ℕ) → i ≢ j → Knows t j (s.pc j))
      → (j : ℕ) → Knows t j (t.pc j)
  known_by t p q k others j = elim (ℕ_discrete i j) [
    | yes z ↦
        let same : t.pc i ≡ p = ap (λ (f : ℕ → Pc). f i) q ∙ update_self s.pc i p in
        subst (λ a. Knows t a (t.pc a)) z (subst (Knows t i) (sym same) k)
    | no z ↦
        let same : t.pc j ≡ s.pc j = ap (λ (f : ℕ → Pc). f j) q ∙ update_ne s.pc i j p z in
        subst (Knows t j) (sym same) (others j z)
  ]

  -- The rest of the state may change in what a thread does not rely on.
  Knows-kept :
      (t : System) (j : ℕ) (c : Pc)
      → s.epoch ≤ t.epoch
      → (In j s.members → In j t.members)
      → ((k g : ℕ)
          → guarded (t.pc k) ≡ true
          → g ≤ s.epoch
          → ((guarded (s.pc k) ≡ true) × (g ≤ s.entry k → g ≤ t.entry k)) ⊎ (g ≤ t.entry k))
      → Knows s j c
      → Knows t j c
  unfolding Knows
  Knows-kept t j outside l m f k = tt
  Knows-kept t j (entering e) l m f (le, q) = (omega arith, m q)
  Knows-kept t j inside l m f k = tt
  Knows-kept t j advancing l m f k = tt
  Knows-kept t j (glancing g js) l m f k = omega arith
  Knows-kept t j (loaded g) l m f k = omega arith
  Knows-kept t j (fencing g) l m f k = omega arith
  Knows-kept t j (fenced g) l m f k = omega arith
  Knows-kept t j (scanning g js) l m f (le, a) = (
    omega arith,
    λ k r. elim (f k g r le) [
      | inl (was, same) ↦ elim (a k was) [ inl left ↦ inl left | inr h ↦ inr (same h) ]
      | inr h ↦ inr h
    ],
  )
  Knows-kept t j releasing l m f k = tt

module _ {s : System} (inv : Inv s) (i : ℕ) where
  adopt-Inv : s.pc i ≡ outside → Inv (record s { members = i ∷ s.members })
  adopt-Inv q = record {
    bounded = inv.bounded;
    member = λ j r. rest (inv.member j r);
    announces = inv.announces;
    entered = inv.entered;
    held = inv.held;
    knows = λ j.
        Knows-kept inv i _ j (s.pc j) (omega arith) (λ r. rest r) (λ k g r l. inl (r, λ h. h))
          (inv.knows j);
  }

  announce-Inv :
      (e : ℕ)
      → s.pc i ≡ entering e
      → Inv (record s {
        slot = update s.slot i (enter e (s.slot i));
        pc = update s.pc i inside;
        entry = update s.entry i s.epoch;
        since = update s.since i [];
      })
  unfolding Knows enter
  announce-Inv e q =
      let (le, m) = known inv i _ q in
      let after : System = record s {
        slot = update s.slot i (enter e (s.slot i));
        pc = update s.pc i inside;
        entry = update s.entry i s.epoch;
        since = update s.since i [];
      } in
      record {
        bounded = inv.bounded;
        member = λ j r. elim (ℕ_discrete i j) [
          | yes z ↦ rw (← z) m
          | no z ↦ inv.member j (ground (arith, z, r))
        ];
        announces = λ j r. ground (arith, r, le, inv.announces j);
        entered = λ j r. ground (arith, r, inv.entered j);
        held = λ j r. ground (arith, r, inv.held j);
        knows = known_by inv i after inside refl tt (λ j d.
            Knows-kept inv i after j (s.pc j) (omega arith) (λ r. r)
              (λ k g r l. elim (ℕ_discrete i k) [
                | yes z ↦ inr (ground (arith, z, l))
                | no z ↦ inl (ground (arith, z, r), λ h. ground (arith, z, h))
              ])
              (inv.knows j));
      }

  -- A thread writes its own slot and stays where its guard is, or leaves.
  slot-Inv :
      (p : Participant) (c : Pc) (since : ℕ → List Retired)
      → guarded (s.pc i) ≡ true
      → (guarded c ≡ true → p.epoch ≡ (s.slot i).epoch)
      → Knows s i c
      → Inv (record s { slot = update s.slot i p; pc = update s.pc i c; since = since })
  slot-Inv p c since q same k =
      let after : System = record s {
        slot = update s.slot i p;
        pc = update s.pc i c;
        since = since;
      } in
      record {
        bounded = inv.bounded;
        member = λ j r. inv.member j (ground (arith, q, r));
        announces = λ j r. ground (arith, q, r, same, inv.announces j, inv.announces i);
        entered = λ j r. inv.entered j (ground (arith, q, r));
        held = λ j r. inv.held j (ground (arith, q, r));
        knows =
            let f : (k g : ℕ)
                → guarded (update s.pc i c k) ≡ true
                → g ≤ s.epoch
                → ((guarded (s.pc k) ≡ true) × (g ≤ s.entry k → g ≤ s.entry k)) ⊎ (g ≤ s.entry k) =
              λ k g r l. inl (ground (arith, q, r), λ h. h) in
            known_by inv i after c refl (Knows-kept inv i after i c (omega arith) (λ r. r) f k)
              (λ j d. Knows-kept inv i after j (s.pc j) (omega arith) (λ r. r) f (inv.knows j));
      }

  swap-Inv :
      (g : ℕ)
      → s.pc i ≡ scanning g []
      → s.epoch ≡ g
      → g + 5 < word
      → Inv (record s { epoch = add_word g 1; pc = update s.pc i releasing })
  unfolding Knows
  swap-Inv g q now bound =
      let (le, ahead) = known inv i _ q in
      let up : add_word g 1 ≡ suc g = omega arith in
      let not_behind : (j : ℕ) → guarded (s.pc j) ≡ true → g ≤ s.entry j =
        λ j r. elim (ahead j r) [ inl n ↦ elim n [ ] | inr h ↦ h ] in
      let was : (j : ℕ) → guarded (update s.pc i releasing j) ≡ true → guarded (s.pc j) ≡ true =
        λ j r. ground (arith, q, r) in
      let after : System = record s { epoch = add_word g 1; pc = update s.pc i releasing } in
      record {
        bounded = omega (arith, up);
        member = λ j r. inv.member j (was j r);
        announces = λ j r. inv.announces j (was j r);
        entered = λ j r. omega (arith, up, inv.entered j (was j r));
        held = λ j r. omega (arith, up, not_behind j (was j r));
        knows = known_by inv i after releasing refl tt (λ j d.
            Knows-kept inv i after j (s.pc j) (omega (arith, up)) (λ r. r)
              (λ k g r l. inl (was k r, λ h. h)) (inv.knows j));
      }

epoch-retire_node :
    (x : Address) (p : Participant) → (count_retire (retire_node x p)).0.epoch ≡ p.epoch
unfolding count_retire retire_node renew_bag
epoch-retire_node x p = ground arith

-- A slot that does not lag behind the scan is not behind it.
scanned :
    {s : System} (inv : Inv s) (g j : ℕ) (js : List ℕ) (k : ℕ)
    → guarded (s.pc k) ≡ true
    → lags s g j ≡ false
    → In k (j ∷ js) ⊎ (g ≤ s.entry k)
    → In k js ⊎ (g ≤ s.entry k)
scanned inv g j js k r l (inl first) =
    inr (ground (arith, l, inv.announces j r, inv.entered j r, inv.bounded))
scanned inv g j js k r l (inl (rest n)) = inl n
scanned inv g j js k r l (inr h) = inr h

pub initial-Inv : Inv initial
unfolding Knows
initial-Inv = record {
  bounded = omega arith;
  member = λ i q. absurd (ground arith);
  announces = λ i q. absurd (ground arith);
  entered = λ i q. absurd (ground arith);
  held = λ i q. absurd (ground arith);
  knows = λ i. tt;
}

module _ {late : ℕ → ℕ → Type 0} where
  pub Step-Inv : {s : System} (i : ℕ) {t : System} → Step late s i t → Inv s → Inv t
  unfolding Knows leave
  Step-Inv {s} i (adopt q n) inv = adopt-Inv inv i q
  Step-Inv {s} i (begin q m) inv =
      stand inv i (entering s.epoch) s.busy (rw q refl) (omega arith, m)
  Step-Inv {s} i (announce {e} q l) inv = announce-Inv inv i e q
  Step-Inv {s} i (hand_over x q) inv =
      elim (Bool-cases (count_retire (retire_node x (s.slot i))).1) [
        | inl full ↦
            rw full
              (slot-Inv inv i _ advancing _ (rw q refl) (λ z. epoch-retire_node x (s.slot i)) tt)
        | inr room ↦
            rw room (slot-Inv inv i _ inside _ (rw q refl) (λ z. epoch-retire_node x (s.slot i)) tt)
      ]
  Step-Inv {s} i (end q) inv = slot-Inv inv i _ outside s.since (rw q refl) (λ z. cc) tt
  Step-Inv {s} i (load_epoch q) inv = stand inv i (loaded s.epoch) s.busy (rw q refl) (omega arith)
  Step-Inv {s} i (load_members {g} q) inv =
      stand inv i (glancing g s.members) s.busy (rw q refl) (known inv i _ q)
  Step-Inv {s} i (glance {g} {j} {js} q l) inv =
      stand inv i (glancing g js) s.busy (rw q refl) (known inv i _ q)
  Step-Inv {s} i (give_up q l) inv = stand inv i inside s.busy (rw q refl) tt
  Step-Inv {s} i (glanced {g} q) inv = stand inv i (fencing g) s.busy (rw q refl) (known inv i _ q)
  Step-Inv {s} i (taken q b) inv = stand inv i inside s.busy (rw q refl) tt
  Step-Inv {s} i (take {g} q b) inv = stand inv i (fenced g) true (rw q refl) (known inv i _ q)
  Step-Inv {s} i (fence_fails q) inv = stand inv i releasing s.busy (rw q refl) tt
  Step-Inv {s} i (fence {g} q) inv =
      stand inv i (scanning g s.members) s.busy (rw q refl)
        (known inv i _ q, λ j r. inl (inv.member j r))
  Step-Inv {s} i (scan {g} {j} {js} q l) inv =
      let (le, ahead) = known inv i _ q in
      stand inv i (scanning g js) s.busy (rw q refl)
        (le, λ k r. scanned inv g j js k r l (ahead k r))
  Step-Inv {s} i (scan_fails q l) inv = stand inv i releasing s.busy (rw q refl) tt
  Step-Inv {s} i (swap {g} q n b) inv = swap-Inv inv i g q n b
  Step-Inv {s} i (swap_fails q n) inv = stand inv i releasing s.busy (rw q refl) tt
  Step-Inv {s} i (release q) inv = stand inv i inside false (rw q refl) tt

  pub Reach-Inv : {s : System} → Reach late s → Inv s
  Reach-Inv start = initial-Inv
  Reach-Inv (later i r st) = Step-Inv i st (Reach-Inv r)

  -- In every reachable state of the reclaimer, whatever epochs threads announce late, the epoch is
  -- at most one ahead of what it was when a thread that is inside a guard announced itself.
  pub epoch_in_guard :
      {s : System} (i : ℕ)
      → Reach late s
      → guarded (s.pc i) ≡ true
      → (s.entry i ≤ s.epoch) × (s.epoch ≤ suc (s.entry i))
  epoch_in_guard i r q = let inv = Reach-Inv r in (inv.entered i q, inv.held i q)
