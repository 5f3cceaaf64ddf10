-- ===== src/CoarseGrained/Threads/Owners.antt =====
-- Who holds the mutex and what is answered, in any run of the threads, with memory or without.
use concurrent_hash_sets.Base.{
  ℕ, ◌≡◌, Bool, List, true, some, update, update_self, update_ne, ℕ_discrete, arith,
}
use concurrent_hash_sets.Element.{Element}
use concurrent_hash_sets.Outcome.{Allocator}
use concurrent_hash_sets.History.{Op, Label, Event, record_event, latest, latest_ne}
use concurrent_hash_sets.CoarseGrained.Threads.{
  Pc, System, Step, outside, acquire, release, inside, ReachAny, any_start, any_later, Reach, start,
  later,
}
use concurrent_hash_sets.CoarseGrained.Threads.Invariant.{
  holds, decided, Turn, Outside-Turn, Acquires-Turn, Releases-Turn, Inside-Turn,
}

module _ {T : Type 0} ⦃e : Element T⦄ where
  pub Turn-answers :
      (h : List (Event T)) (pc : ℕ → Pc T) (i : ℕ)
      → ((j : ℕ) (r : Op T × Bool) → decided (pc j) ≡ some r → latest j h ≡ some r)
      → {l : Label T} {p : Pc T} {a b : Bool} → Turn l (pc i) p a b
      → (j : ℕ) (r : Op T × Bool) → decided (update pc i p j) ≡ some r
      → latest j (record_event i l h) ≡ some r
  Turn-answers h pc i before {l} {p} t j r = elim (ℕ_discrete i j) [
    | yes q ↦ rw (← q, update_self pc i p) (t.answer h i (before i) r)
    | no q ↦ rw (update_ne pc i j p q, latest_ne i j l h q) (before j r)
  ]

  -- A thread is between the constructor and the destructor of a lock exactly if it owns the mutex, and
  -- what it has decided is what its latest event says.
  pub record Owned (h : List (Event T)) (s : System T) : Type 0 where
    pub owns : (i : ℕ) → holds (s.pc i) ≡ true → s.owner ≡ some i
    pub held : (i : ℕ) → s.owner ≡ some i → holds (s.pc i) ≡ true
    pub answered : (i : ℕ) (r : Op T × Bool) → decided (s.pc i) ≡ some r → latest i h ≡ some r

  Step-Owned :
      {mem : Allocator} {h : List (Event T)} {s : System T} (i : ℕ) {l : Label T} {t : System T}
      → Step mem s i l t
      → Owned h s
      → Owned (record_event i l h) t
  Step-Owned {h} {s} i (outside o) w =
      let t = Outside-Turn o in
      record {
        owns = λ j q. ground (arith, t.after, w.owns j);
        held = λ j q. ground (arith, t.before, t.after, w.held j);
        answered = Turn-answers h s.pc i w.answered t;
      }
  Step-Owned {h} {s} i (acquire free a) w =
      let t = Acquires-Turn a in
      record {
        owns = λ j q. ground (arith, t.after, w.owns j);
        held = λ j q. ground (arith, t.after);
        answered = Turn-answers h s.pc i w.answered t;
      }
  Step-Owned {h} {s} i (release a) w =
      let t = Releases-Turn a in
      let mine = w.owns i t.before in
      record {
        owns = λ j q. ground (arith, t.after, w.owns j);
        held = λ j q. cc;
        answered = Turn-answers h s.pc i w.answered t;
      }
  Step-Owned {h} {s} i (inside a) w =
      let t = Inside-Turn a in
      let mine = w.owns i t.before in
      record {
        owns = λ j q. ground (arith, t.after, w.owns j);
        held = λ j q. ground (arith, t.after, w.held j);
        answered = Turn-answers h s.pc i w.answered t;
      }

  pub ReachAny-Owned : {n : ℕ} {h : List (Event T)} {s : System T} → ReachAny n h s → Owned h s
  ReachAny-Owned any_start = record { owns = λ i q. cc; held = λ i q. cc; answered = λ i r q. cc }
  ReachAny-Owned (any_later i r st) = Step-Owned i st (ReachAny-Owned r)

  pub Reach-ReachAny : {n : ℕ} {h : List (Event T)} {s : System T} → Reach n h s → ReachAny n h s
  Reach-ReachAny start = any_start
  Reach-ReachAny (later i r fills st) = any_later i (Reach-ReachAny r) st
