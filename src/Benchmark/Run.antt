-- ===== src/Benchmark/Run.antt =====
-- `SetUpRun`, `RunScenario` and `CheckRun` of src/benchmarks.cc on any implementation of the
-- abstract class. The threads take turns a call of the set at a time, in any order; an exception
-- ends the program.
pub mod Counting
pub mod Check
use Prim.Native.Nat.{bit_and}
use concurrent_hash_sets.Base.{
  ℕ, zero, suc, ◌+◌, Bool, true, false, not, ◌==◌, List, [], ◌∷◌, length, get_or, update,
  if◌then◌else◌,
}
use concurrent_hash_sets.Element.{Element}
use concurrent_hash_sets.Outcome.{Outcome, returns, throws, Error, Allocator}
use concurrent_hash_sets.Word.{add_word, sub_word}
use concurrent_hash_sets.Contract.{HashSetBase}
use concurrent_hash_sets.Benchmark.Workload.{
  Operation, contains_elem, add_elem, remove_elem, Scenario, Step, starts_present,
}

-- `index`, `thread_added` and `thread_removed` of one thread
pub record Progress : Type 0 where
  pub index : ℕ
  pub thread_added : ℕ
  pub thread_removed : ℕ

abbrev pub fresh_thread : Progress
fresh_thread = record { index = 0; thread_added = 0; thread_removed = 0 }

-- `steps[index & step_mask]`
pub step_at : List Step → ℕ → Step
step_at steps index =
    get_or steps (bit_and index (sub_word (length steps) 1))
      (record { operation = contains_elem; elem = 0 })

-- `added_.fetch_add(thread_added)` by the threads below `n`, each once; the order makes no difference
unfoldable pub gather : ℕ → (ℕ → ℕ) → ℕ
gather zero f = 0
gather (suc n) f = add_word (gather n f) (f n)

module _ ⦃e : Element ℕ⦄ (S : HashSetBase ℕ) (mem : Allocator) where
  -- the loop of `SetUpRun` over the `n` elements from `elem` on, with `present`
  unfoldable pub prefill : ℕ → ℕ → ℕ → S.State → Outcome (S.State × ℕ)
  prefill zero elem present s = returns (s, present)
  prefill (suc n) elem present s = elim (starts_present elem) [
    | false ↦ prefill n (suc elem) present s
    | true ↦
        let (s', o) = S.add mem elem s in
        elim o [ throws c ↦ throws c | returns _ ↦ prefill n (suc elem) (add_word present 1) s' ]
  ]

  -- `SetUpRun` on the set that `MakeHashSet` made: the set, and `initial_size_`
  unfoldable pub set_up_run : Scenario → S.State → Outcome (S.State × ℕ)
  set_up_run sc s = elim sc.prefill [ true ↦ prefill sc.keys 0 0 s | false ↦ returns (s, 0) ]

  -- the body of the loop of `RunScenario`, but for the index
  unfoldable pub perform : Step → S.State → Progress → Outcome (S.State × Progress)
  perform step s p = elim step.operation [
    | contains_elem ↦ returns (s, p)
    | add_elem ↦
        let (s', o) = S.add mem step.elem s in
        elim o [
          | throws c ↦ throws c
          | returns b ↦
              returns (s', record p { thread_added = add_word p.thread_added (if b then 1 else 0) })
        ]
    | remove_elem ↦
        let (s', b) = S.remove step.elem s in
        returns (s', record p { thread_removed = add_word p.thread_removed (if b then 1 else 0) })
  ]

  -- The loops of all threads: `schedule` says which thread makes the next round.
  unfoldable pub run_threads :
      (ℕ → List Step) → List ℕ → S.State → (ℕ → Progress) → Outcome (S.State × (ℕ → Progress))
  run_threads steps [] s ps = returns (s, ps)
  run_threads steps (i ∷ schedule) s ps =
      elim (perform (step_at (steps i) (ps i).index) s
        (record (ps i) { index = add_word (ps i).index 1 })) [
          | throws c ↦ throws c
          | returns r ↦ run_threads steps schedule r.0 (update ps i r.1)
        ]

  -- `CheckRun`: whether the size is the expected one
  unfoldable pub check_run : S.State → ℕ → ℕ → ℕ → Bool
  check_run s initial_size added removed =
      S.size s == sub_word (add_word initial_size added) removed

  -- a run of a scenario from `SetUpRun` to `CheckRun`, by `threads` threads
  unfoldable pub run : Scenario → ℕ → (ℕ → List Step) → List ℕ → S.State → Outcome Bool
  run sc threads steps schedule made = elim (set_up_run sc made) [
    | throws c ↦ throws c
    | returns r ↦ elim (run_threads steps schedule r.0 (λ _. fresh_thread)) [
      | throws c ↦ throws c
      | returns q ↦ returns (
          check_run q.0 r.1 (gather threads (λ i. (q.1 i).thread_added))
            (gather threads (λ i. (q.1 i).thread_removed)))
    ]
  ]
