-- ===== src/CoarseGrained/Threads/Linearizable.antt =====
-- What the runs of the threads on the coarse-grained set are, from the invariant.
use mathlib.Core.Path.{fun_ext, subst}
use concurrent_hash_sets.Base.{
  ℕ, ◌%◌, ◌≤◌, ◌<◌, ◌≡◌, Bool, true, false, none, some, List, [], flatten, length,
}
use concurrent_hash_sets.Element.{Element, word}
use concurrent_hash_sets.Outcome.{returns}
use concurrent_hash_sets.History
use concurrent_hash_sets.History.{Op, Label, Event, Allowed, Contents, extend, latest}
use concurrent_hash_sets.Table.Contents.{empty-HoldsSet, empty-member, most_buckets}
use concurrent_hash_sets.Locked
use concurrent_hash_sets.Locked.Laws.{IsValid}
use concurrent_hash_sets.CoarseGrained.Threads.{
  System, ReachAny, Reach, start, later, initial, returning,
}
use concurrent_hash_sets.CoarseGrained.Threads.Owners.{ReachAny-Owned}
use concurrent_hash_sets.CoarseGrained.Threads.Sections.{view}
use concurrent_hash_sets.CoarseGrained.Threads.Invariant.{holds, current_of, current, Inv}
use concurrent_hash_sets.CoarseGrained.Threads.Preserve.{Step-Keeps}

module _ {T : Type 0} ⦃e : Element T⦄ where
  -- what the set contains, as the thread that holds the mutex will leave it
  abbrev pub contents : System T → Contents T
  contents s = view (current s)

  initial-Inv : (n : ℕ) → 0 < n → n ≤ most_buckets → Inv [] (initial {T = T} n)
  unfolding current current_of
  initial-Inv n pos small = record {
    owns = λ i q. cc;
    held = λ i q. cc;
    valid = empty-HoldsSet n pos small;
    knows = λ i. tt;
    answered = λ i r q. cc;
  }

  pub Reach-Inv :
      {n : ℕ} {h : List (Event T)} {s : System T} → 0 < n → n ≤ most_buckets → Reach n h s → Inv h s
  Reach-Inv {n} pos small start = initial-Inv n pos small
  Reach-Inv pos small (later i r fills st) = (Step-Keeps i fills st (Reach-Inv pos small r)).1

  initial-contents : (n : ℕ) → contents (initial {T = T} n) ≡ (λ y. false)
  unfolding current current_of Locked.contains
  initial-contents n = fun_ext (empty-member n)

  -- If the push_backs of Resize get their memory, the events of any interleaving of any number of
  -- threads on the coarse-grained set of at least one bucket, in the order of the steps that take
  -- effect, are a sequential history of the abstract set from empty to what the set contains.
  pub linearizable :
      {n : ℕ} {h : List (Event T)} {s : System T}
      → 0 < n
      → n ≤ most_buckets
      → Reach n h s
      → Allowed (λ y. false) h (contents s)
  linearizable {n} pos small start = rw (initial-contents n) History.start
  linearizable pos small (later {l} i r fills st) =
      extend i l (linearizable pos small r)
        ((Step-Keeps i fills st (Reach-Inv pos small r)).0.explains)

  module _ {n : ℕ} {h : List (Event T)} {s : System T} (reach : ReachAny n h s) where
    -- In any reachable state of the coarse-grained set at most one thread is inside a critical
    -- section.
    pub mutual_exclusion : (i j : ℕ) → holds (s.pc i) ≡ true → holds (s.pc j) ≡ true → i ≡ j
    mutual_exclusion i j hi hj =
        let owned = ReachAny-Owned reach in cc (owned.owns i hi, owned.owns j hj)

    -- In any reachable state, what a call of the coarse-grained set is about to return is what the
    -- latest event of its thread says.
    pub answer_of_event :
        (i : ℕ) (op : Op T) (b : Bool)
        → s.pc i ≡ returning op (returns b)
        → latest i h ≡ some (op, b)
    answer_of_event i op b q = (ReachAny-Owned reach).answered i (op, b) (rw q)

  module _ {n : ℕ} {h : List (Event T)} {s : System T} (pos : 0 < n) (small : n ≤ most_buckets)
      (reach : Reach n h s) where
    inv : Inv h s
    inv = Reach-Inv pos small reach

    -- In any state of the coarse-grained set that threads can reach while the push_backs of Resize
    -- get their memory, if the mutex is free, the size counter is the number of elements in the
    -- table, modulo the word.
    pub quiet_size : s.owner ≡ none → s.core.set_size ≡ length (flatten s.core.table) % word
    unfolding current
    quiet_size free =
        let settled : current s ≡ s.core = rw (free, current_of) in
        (subst IsValid settled inv.valid).counted
