-- ===== src/CoarseGrained/Threads/Preserve.antt =====
-- The steps of the threads on the coarse-grained set, and the invariant.
use mathlib.Core.Path.{subst}
use concurrent_hash_sets.Base.{
  true, ℕ, ◌≡◌, ◌≢◌, refl, sym, ◌∙◌, ap, false, Option, none, some, List, arith, update,
  update_self, update_ne, ℕ_discrete,
}
use concurrent_hash_sets.Table.{refilled}
use concurrent_hash_sets.Element.{Element}
use concurrent_hash_sets.Outcome.{Allocator}
use concurrent_hash_sets.History.{Label, silent, Event, record_event}
use concurrent_hash_sets.Locked.{Locked}
use concurrent_hash_sets.Locked.Laws.{IsValid}
use concurrent_hash_sets.CoarseGrained.Threads.{
  Pc, adding, removing, built, Outside, Acquires, lock_section, lock_resize, Releases,
  unlock_section, unlock_failed, unlock_resize, Inside, System, Step, outside, acquire, release,
  inside,
}
use concurrent_hash_sets.CoarseGrained.Threads.Sections.{
  settle, Good, same-Good, Knows, Inside-Good, Inside-Knows,
}
use concurrent_hash_sets.CoarseGrained.Threads.Owners.{Turn-answers}
use concurrent_hash_sets.CoarseGrained.Threads.Invariant.{
  holds, current_of, current, Inv, Outside-Turn, Acquires-Turn, Releases-Turn, Inside-Turn,
}

module _ {T : Type 0} ⦃e : Element T⦄ where
  Acquires-settle : {p p' : Pc T} (c : Locked T) → Acquires p p' → settle p' c ≡ c
  Acquires-settle c lock_section = refl
  Acquires-settle c lock_resize = refl

  Releases-settle : {p p' : Pc T} (c : Locked T) → Releases p p' → settle p c ≡ c
  Releases-settle c unlock_section = refl
  Releases-settle c unlock_failed = refl
  Releases-settle c unlock_resize = refl

  Knows-free : (p : Pc T) (c : Locked T) → holds p ≡ false → Knows p c
  Knows-free (adding x) c h = cc
  Knows-free (removing x) c h = cc
  Knows-free (built x n fresh) c h = cc
  Knows-free _ c h = tt

  Acquires-Knows : {p p' : Pc T} (c : Locked T) → Acquires p p' → Knows p' c
  Acquires-Knows c lock_section = tt
  Acquires-Knows c lock_resize = tt

  current_of-other :
      (o : Option ℕ) (pc : ℕ → Pc T) (c : Locked T) (i : ℕ) (p : Pc T)
      → o ≢ some i
      → current_of o (update pc i p) c ≡ current_of o pc c
  unfolding current_of
  current_of-other none pc c i p h = refl
  current_of-other (some j) pc c i p h =
      ap (λ q. settle q c) (update_ne pc i j p (λ q. h (ap some (sym q))))

  current_of-owner :
      {o : Option ℕ} {i : ℕ} (pc : ℕ → Pc T) (c : Locked T)
      → o ≡ some i
      → current_of o pc c ≡ settle (pc i) c
  unfolding current_of
  current_of-owner pc c mine = rw mine

  module _ {h : List (Event T)} {s : System T} (inv : Inv h s) (i : ℕ) where
    not_owner : holds (s.pc i) ≡ false → s.owner ≢ some i
    not_owner f q = ground (arith, inv.held i q)

    -- The other threads know nothing of the shared members while thread `i` is inside.
    keeps :
        (p : Pc T) (c : Locked T)
        → ((j : ℕ) → i ≢ j → Knows (s.pc j) c)
        → Knows p c
        → (j : ℕ) → Knows (update s.pc i p j) c
    keeps p c others mine j = elim (ℕ_discrete i j) [
      | yes q ↦ rw (← q, update_self s.pc i p) mine
      | no q ↦ rw (update_ne s.pc i j p q) (others j q)
    ]

    -- A step of thread `i` from `s` to `t` does what its label says, and keeps the invariant.
    abbrev Keeps : Label T → System T → Type 0
    Keeps l t = Good l (current s) (current t) × Inv (record_event i l h) t

    Outside-Keeps :
        {p : Pc T} → Outside s.core (s.pc i) p → Keeps silent (record s { pc = update s.pc i p })
    unfolding current
    Outside-Keeps {p} o =
        let t = Outside-Turn o in
        let same = current_of-other s.owner s.pc s.core i p (not_owner t.before) in
        (
          rw same (same-Good inv.valid),
          record {
            owns = λ j q. ground (arith, t.after, inv.owns j);
            held = λ j q. ground (arith, t.before, t.after, inv.held j);
            valid = rw same inv.valid;
            knows = keeps p s.core (λ j q. inv.knows j) (Knows-free p s.core t.after);
            answered = Turn-answers h s.pc i inv.answered t;
          },
        )

    acquire-Keeps :
        {p : Pc T}
        → s.owner ≡ none
        → Acquires (s.pc i) p
        → Keeps silent (record s { owner = some i; pc = update s.pc i p })
    unfolding current current_of
    acquire-Keeps {p} free a =
        let t = Acquires-Turn a in
        let same : settle (update s.pc i p i) s.core ≡ current s =
          rw (update_self s.pc i p, free) (Acquires-settle s.core a) in
        (
          rw same (same-Good inv.valid),
          record {
            owns = λ j q. ground (arith, t.after, inv.owns j);
            held = λ j q. ground (arith, t.after);
            valid = rw same inv.valid;
            knows = keeps p s.core (λ j q. inv.knows j) (Acquires-Knows s.core a);
            answered = Turn-answers h s.pc i inv.answered t;
          },
        )

    release-Keeps :
        {p : Pc T}
        → Releases (s.pc i) p
        → Keeps silent (record s { owner = none; pc = update s.pc i p })
    unfolding current current_of
    release-Keeps {p} a =
        let t = Releases-Turn a in
        let mine = inv.owns i t.before in
        let same : s.core ≡ current s = rw mine (sym (Releases-settle s.core a)) in
        (
          subst (λ c. Good silent (current s) c) (sym same) (same-Good inv.valid),
          record {
            owns = λ j q. ground (arith, t.after, inv.owns j);
            held = λ j q. cc;
            valid = rw same inv.valid;
            knows = keeps p s.core (λ j q. inv.knows j) (Knows-free p s.core t.after);
            answered = Turn-answers h s.pc i inv.answered t;
          },
        )

    inside-Keeps :
        {l : Label T} {c : Locked T} {p : Pc T} {mem : Allocator}
        → refilled mem s.core.table ≡ true
        → Inside mem s.core (s.pc i) l c p
        → Keeps l (record s { core = c; pc = update s.pc i p })
    unfolding current
    inside-Keeps {l} {c} {p} fills a =
        let t = Inside-Turn a in
        let mine = inv.owns i t.before in
        let was = current_of-owner s.pc s.core mine in
        let is =
          current_of-owner (update s.pc i p) c mine ∙ ap (λ q. settle q c) (update_self s.pc i p) in
        let before : IsValid (settle (s.pc i) s.core) = subst IsValid was inv.valid in
        let good = Inside-Good fills a before (inv.knows i) in
        (
          rw (was, is) good,
          record {
            owns = λ j q. ground (arith, t.after, inv.owns j);
            held = λ j q. ground (arith, t.after, inv.held j);
            valid = subst IsValid (sym is) good.valid;
            knows =
                keeps p c
                  (λ j q. Knows-free (s.pc j) c (ground (arith, t.before, mine, inv.owns j)))
                  (Inside-Knows fills a before);
            answered = Turn-answers h s.pc i inv.answered t;
          },
        )

  pub Step-Keeps :
      {h : List (Event T)} {s : System T} (i : ℕ) {l : Label T} {mem : Allocator} {t : System T}
      → refilled mem s.core.table ≡ true
      → Step mem s i l t
      → Inv h s
      → Good l (current s) (current t) × Inv (record_event i l h) t
  Step-Keeps i fills (outside o) inv = Outside-Keeps inv i o
  Step-Keeps i fills (acquire free a) inv = acquire-Keeps inv i free a
  Step-Keeps i fills (release a) inv = release-Keeps inv i a
  Step-Keeps i fills (inside a) inv = inside-Keeps inv i fills a
