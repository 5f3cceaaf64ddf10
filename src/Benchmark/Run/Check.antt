-- ===== src/Benchmark/Run/Check.antt =====
-- `CheckRun` of src/benchmarks.cc at the end of a run.
use concurrent_hash_sets.Base.{
  ℕ, zero, suc, ◌+◌, ◌%◌, ◌<◌, ◌≤◌, ◌≡◌, ◌≢◌, refl, sym, ◌∙◌, ap, ◌⊎◌, inl, inr, true, false, not,
  ==_iff, List, [], ◌∷◌, length, update, update_self, update_ne, if◌then◌else◌, Bool-cases, arith,
}
use concurrent_hash_sets.Element.{Element, word}
use concurrent_hash_sets.Outcome.{Outcome, returns, throws, allocation_failed, Allocator}
use concurrent_hash_sets.Word.{add_word}
use concurrent_hash_sets.Bucket.{has}
use concurrent_hash_sets.Contract.{HashSetBase}
use concurrent_hash_sets.Benchmark.Workload.{
  Operation, contains_elem, add_elem, remove_elem, Scenario, Step, starts_present,
}
use concurrent_hash_sets.Benchmark.Run.{
  Progress, fresh_thread, step_at, gather, prefill, set_up_run, perform, run_threads, check_run,
  run,
}
use concurrent_hash_sets.Benchmark.Run.Counting.{gather-zero, gather-bump}

-- An exception for want of memory, or a result that is as it should be.
abbrev pub Ends : {A : Type 0} → Outcome A → (A → Type 0) → Type 0
Ends {A} o P = (o ≡ throws allocation_failed) ⊎ ((a : A) × (o ≡ returns a) × P a)

-- every thread of a schedule is one of the first `threads`
pub data Below (threads : ℕ) : List ℕ → Type 0 where
  done : Below threads []
  turn :
      {i : ℕ} {schedule : List ℕ}
      → i < threads
      → Below threads schedule
      → Below threads (i ∷ schedule)

module _ ⦃e : Element ℕ⦄ (S : HashSetBase ℕ) (mem : Allocator) where
  abbrev held : S.State → ℕ
  held s = length (S.elements s)

  -- a call of the set that counts `plus` and `minus`
  record Performed (s : S.State) (p : Progress) (r : S.State × Progress) : Type 0 where
    valid : S.IsValid r.0
    plus : ℕ
    minus : ℕ
    added : r.1.thread_added % word ≡ (p.thread_added + plus) % word
    removed : r.1.thread_removed % word ≡ (p.thread_removed + minus) % word
    amount : held r.0 + minus ≡ held s + plus

  perform-Performed :
      (op : Operation) (x : ℕ) (s : S.State) (p : Progress)
      → S.IsValid s
      → Ends (perform S mem (record { operation = op; elem = x }) s p) (Performed s p)
  unfolding perform
  perform-Performed contains_elem x s p v = inr (
    (s, p),
    refl,
    record {
      valid = v;
      plus = 0;
      minus = 0;
      added = omega arith;
      removed = omega arith;
      amount = refl;
    },
  )
  perform-Performed remove_elem x s p v = inr (
    _,
    refl,
    record {
      valid = S.remove-IsValid x s v;
      plus = 0;
      minus = if (S.remove x s).1 then 1 else 0;
      added = omega arith;
      removed = omega arith;
      amount = rw (S.remove-result x s v) (omega (arith, S.remove-amount x s v));
    },
  )
  perform-Performed add_elem x s p v = elim (S.add-Answers mem x s v) [
    | inl answered ↦
        rw (perform, answered)
          (inr (
            _,
            refl,
            record {
              valid = S.add-IsValid mem x s v answered;
              plus = if not (S.contains x s) then 1 else 0;
              minus = 0;
              added = omega arith;
              removed = omega arith;
              amount = ground (arith, S.add-amount mem x s v answered);
            },
          ))
    | inr thrown ↦ rw (perform, thrown.1) (inl refl)
  ]

  -- The set is as large as the counters say.
  record Balanced (threads initial_size : ℕ) (r : S.State × (ℕ → Progress)) : Type 0 where
    valid : S.IsValid r.0
    balance :
        (held r.0 + gather threads (λ i. (r.1 i).thread_removed)) % word
        ≡ (initial_size + gather threads (λ i. (r.1 i).thread_added)) % word

  perform-Balanced :
      {threads initial_size : ℕ} {s : S.State} {ps : ℕ → Progress} (i index : ℕ)
      {r : S.State × Progress}
      → i < threads
      → Balanced threads initial_size (s, ps)
      → Performed s (record (ps i) { index = index }) r
      → Balanced threads initial_size (r.0, update ps i r.1)
  perform-Balanced {threads} {initial_size} {s} {ps} i index {r} h b t =
      let others : (j : ℕ) → j ≢ i → update ps i r.1 j ≡ ps j =
        λ j d. update_ne ps i j r.1 (λ q. d (sym q)) in
      let added =
        gather-bump threads i t.plus (λ j. (ps j).thread_added)
          (λ j. (update ps i r.1 j).thread_added) h (rw (update_self ps i r.1) t.added)
          (λ j d. ap (λ c. c.thread_added) (others j d)) in
      let removed =
        gather-bump threads i t.minus (λ j. (ps j).thread_removed)
          (λ j. (update ps i r.1 j).thread_removed) h (rw (update_self ps i r.1) t.removed)
          (λ j d. ap (λ c. c.thread_removed) (others j d)) in
      record { valid = t.valid; balance = omega (arith, added, removed, t.amount, b.balance) }

  run_threads-Balanced :
      {threads initial_size : ℕ} (steps : ℕ → List Step) {schedule : List ℕ} (s : S.State)
      (ps : ℕ → Progress)
      → Below threads schedule
      → Balanced threads initial_size (s, ps)
      → Ends (run_threads S mem steps schedule s ps) (Balanced threads initial_size)
  unfolding run_threads
  run_threads-Balanced steps s ps done b = inr ((s, ps), refl, b)
  run_threads-Balanced steps s ps (turn {i} {schedule} h rest) b =
      let step = step_at (steps i) (ps i).index in
      let index = add_word (ps i).index 1 in
      elim (perform-Performed step.operation step.elem s (record (ps i) { index = index })
        b.valid) [
          | inl thrown ↦ rw (run_threads, thrown) (inl refl)
          | inr (r, q, t) ↦
              rw (run_threads, q)
                (run_threads-Balanced steps r.0 (update ps i r.1) rest
                  (perform-Balanced i index h b t))
        ]

  -- a set with `present` elements, which misses those from `elem` on
  record Prefilled (s : S.State) (elem present : ℕ) : Type 0 where
    valid : S.IsValid s
    missing : (y : ℕ) → elem ≤ y → S.contains y s ≡ false
    counted : present ≡ held s % word

  prefill-Prefilled :
      (n elem present : ℕ) (s : S.State)
      → Prefilled s elem present
      → Ends (prefill S mem n elem present s) (λ r. S.IsValid r.0 × (r.1 ≡ held r.0 % word))
  unfolding prefill
  prefill-Prefilled zero elem present s f = inr ((s, present), refl, (f.valid, f.counted))
  prefill-Prefilled (suc n) elem present s f = elim (Bool-cases (starts_present elem)) [
    | inr out ↦
        rw (prefill, out)
          (prefill-Prefilled n (suc elem) present s (record {
            valid = f.valid;
            missing = λ y h. f.missing y (omega arith);
            counted = f.counted;
          }))
    | inl starts ↦ elim (S.add-Answers mem elem s f.valid) [
      | inl answered ↦
          rw (prefill, starts, answered)
            (prefill-Prefilled n (suc elem) (add_word present 1) (S.add mem elem s).0 (record {
              valid = S.add-IsValid mem elem s f.valid answered;
              missing = λ y h.
                  S.add-others mem elem y s f.valid answered (λ q. absurd (omega arith))
                  ∙ f.missing y (omega arith);
              counted =
                  let m =
                    rw (f.missing elem (omega arith)) at
                      (S.add-amount mem elem s f.valid answered) in
                  omega (arith, m, f.counted);
            }))
      | inr thrown ↦ rw (prefill, starts, thrown.1) (inl refl)
    ]
  ]

  has-empty : (x : ℕ) (xs : List ℕ) → length xs ≡ 0 → has x xs ≡ false
  unfolding has
  has-empty x [] h = refl
  has-empty x (y ∷ xs) h = absurd (omega arith)

  set_up_run-Counted :
      (sc : Scenario) (made : S.State)
      → S.IsValid made
      → length (S.elements made) ≡ 0
      → Ends (set_up_run S mem sc made) (λ r. S.IsValid r.0 × (r.1 ≡ held r.0 % word))
  unfolding set_up_run
  set_up_run-Counted sc made v empty = elim (Bool-cases sc.prefill) [
    | inl starts ↦
        simp (set_up_run, starts)
          (prefill-Prefilled sc.keys 0 0 made (record {
            valid = v;
            missing = λ y h. S.contains_lem y made v ∙ has-empty y (S.elements made) empty;
            counted = omega (arith, empty);
          }))
    | inr out ↦ simp (set_up_run, out) (inr ((made, 0), refl, (v, omega (arith, empty))))
  ]

  start-Balanced :
      (threads : ℕ) (s : S.State) → S.IsValid s → Balanced threads (held s) (s, λ _. fresh_thread)
  start-Balanced threads s v = record { valid = v; balance = omega (arith, gather-zero threads) }

  check_run-Balanced :
      {threads initial_size : ℕ} (r : S.State × (ℕ → Progress))
      → Balanced threads initial_size r
      → check_run S mem r.0
          (initial_size % word)
          (gather threads (λ i. (r.1 i).thread_added))
          (gather threads (λ i. (r.1 i).thread_removed))
        ≡ true
  unfolding check_run
  check_run-Balanced r b = (==_iff _ _).1 (omega (arith, S.size_lem r.0 b.valid, b.balance))

  -- On any implementation of the abstract class, a benchmark run from a valid empty set ends in
  -- CheckRun finding the expected size, whatever the steps and in whatever order the calls of the
  -- threads take turns, unless memory runs out.
  pub run-passes :
      (sc : Scenario) (threads : ℕ) (steps : ℕ → List Step) {schedule : List ℕ} (made : S.State)
      → Below threads schedule
      → S.IsValid made
      → length (S.elements made) ≡ 0
      → Ends (run S mem sc threads steps schedule made) (λ passed. passed ≡ true)
  unfolding run
  run-passes sc threads steps {schedule} made order v empty =
      elim (set_up_run-Counted sc made v empty) [
        | inl thrown ↦ rw (run, thrown) (inl refl)
        | inr (r, q, c) ↦
            elim (run_threads-Balanced steps r.0 (λ _. fresh_thread) order
              (start-Balanced threads r.0 c.0)) [
                | inl thrown ↦ rw (run, q, thrown) (inl refl)
                | inr (t, p, b) ↦ rw (run, q, p) (inr (_, refl, rw c.1 (check_run-Balanced t b)))
              ]
      ]
