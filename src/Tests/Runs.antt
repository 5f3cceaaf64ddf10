-- ===== src/Tests/Runs.antt =====
-- Runs of the refinable set and of the benchmark.
use concurrent_hash_sets.Base.{
  ℕ, ◌+◌, ◌^◌, ◌<◌, ◌≡◌, refl, true, false, not, ℕ_discrete, [], ◌∷◌, some, get_elem?, length,
  flatten, arith,
}
use concurrent_hash_sets.Outcome.{throws, allocation_failed}
use concurrent_hash_sets.Contract.{HashSetBase}
use concurrent_hash_sets.Bucket.{has, push_back}
use concurrent_hash_sets.Table.{home, refilled}
use concurrent_hash_sets.Locked
use concurrent_hash_sets.Locked.Laws.{Changes, insert-Changes}
use concurrent_hash_sets.Refinable
use concurrent_hash_sets.Refinable.{HashSetRefinable, done}
use concurrent_hash_sets.Refinable.Laws.{
  IsValid, own_lock, mid_resize, contains_lem, remove_lem, set_core,
}
use concurrent_hash_sets.Refinable.Grow.{Added, add_lem}
use concurrent_hash_sets.Refinable.New.{made, made-IsValid}
use concurrent_hash_sets.Refinable.Stuck.{IsStuck, add-IsStuck}
use concurrent_hash_sets.Benchmark.Workload.{
  Scenario, Step, add_elem, sequential, operation_of, pick_operation, pick_elem, draw_steps,
  step_count, build_steps,
}
use concurrent_hash_sets.Benchmark.Workload.Range.{build_steps-lt}
use concurrent_hash_sets.Benchmark.Run.{run}
use concurrent_hash_sets.Benchmark.Run.Check.{Ends, Below, turn, run-passes}
use concurrent_hash_sets.CoarseGrained.Implements.{coarse_grained}
use concurrent_hash_sets.Tests.{numbers, roomy, cramped}

abbrev two : HashSetRefinable ℕ
two = made 2 1

two-IsValid : IsValid 0 two
two-IsValid = made-IsValid 2 1 refl (omega arith) (omega arith)

refilled_with_5 : refilled roomy (Locked.insert 5 two.core).0.table ≡ true
unfolding refilled Locked.insert Locked.push Locked.count_up Locked.bucket Locked.bucket_index home
    has push_back ℕ_discrete flatten
refilled_with_5 = refl

contains_lem_example :
    (Refinable.scoped_lock 1 5 two ≡ done (own_lock two-IsValid 5))
    × (Refinable.contains 1 5 two ≡ done (Locked.contains 5 two.core))
    × (Refinable.contains 1 5 (mid_resize two-IsValid 5) ≡ Refinable.spinning)
contains_lem_example = contains_lem two-IsValid 5 0

remove_lem_example :
    (t : HashSetRefinable ℕ) × (Refinable.scoped_lock 1 5 two ≡ done (own_lock two-IsValid 5))
    × (Refinable.remove 1 5 two ≡ done (t, Locked.contains 5 two.core))
    × (Refinable.remove 1 5 (mid_resize two-IsValid 5) ≡ Refinable.spinning)
    × IsValid 0 t
    × Changes two-IsValid.holds 5 false t.core
remove_lem_example = remove_lem two-IsValid 5 0

add_lem_example : Added roomy two-IsValid 5 1 (not (Locked.contains 5 two.core))
add_lem_example = add_lem roomy two-IsValid 5 0 refl refl refl refilled_with_5

-- the same set with 5 in it
abbrev holding_5 : HashSetRefinable ℕ
holding_5 = record two { core = record { table = [] ∷ (5 ∷ []) ∷ []; capacity = 2; set_size = 1 } }

holding_5-IsValid : IsValid 0 holding_5
unfolding Locked.insert Locked.push Locked.count_up Locked.bucket Locked.bucket_index has home
    push_back
holding_5-IsValid = set_core two-IsValid 5 (insert-Changes two-IsValid.holds 5).holds refl

lacks_7 : Locked.contains 7 holding_5.core ≡ false
unfolding Locked.contains Locked.bucket Locked.bucket_index home has ℕ_discrete
lacks_7 = refl

full_with_7 : Locked.policy (Locked.insert 7 holding_5.core).0 ≡ true
unfolding Locked.policy Locked.insert Locked.count_up Locked.push Locked.bucket Locked.bucket_index
    home has ℕ_discrete
full_with_7 = refl

add-IsStuck_example :
    (t : HashSetRefinable ℕ) × (Refinable.add 1 cramped 7 holding_5
      ≡ done (t, throws allocation_failed))
    × IsStuck t
add-IsStuck_example = add-IsStuck cramped 0 7 holding_5-IsValid lacks_7 full_with_7 refl refl

-- a generator of the numbers from a seed on
abbrev counting : ℕ → ℕ × ℕ
counting n = (n + 1, n)

abbrev growth : Scenario
growth = record {
  mix = record { contains = 0; add = 100; remove = 0 };
  key_choice = sequential;
  keys = 2 ^ 19;
  initial_capacity = 2 ^ 10;
  max_capacity = 2 ^ 20;
  iterations = 2 ^ 15;
  prefill = false;
}

abbrev second_step : Step
second_step = record { operation = add_elem; elem = 2 ^ 18 + 1 }

grows : get_elem? (build_steps counting (λ n. n) growth 1 2) 1 ≡ some second_step
unfolding build_steps draw_steps pick_operation pick_elem operation_of step_count
grows = refl

build_steps-lt_example : second_step.elem < growth.keys
build_steps-lt_example = build_steps-lt counting (λ n. n) 9 1 1 1 refl refl (omega arith) grows

-- two threads that add 5, and a third turn for the first
in_turns : Below 2 (0 ∷ 1 ∷ 0 ∷ [])
in_turns = turn (omega arith) (turn (omega arith) (turn (omega arith) Below.done))

-- an empty set of two buckets, as an implementation of the abstract class
base : HashSetBase ℕ
base = coarse_grained

base_set : base.State
unfolding base coarse_grained
base_set = two.core

base_set-IsValid : base.IsValid base_set
unfolding base coarse_grained base_set
base_set-IsValid = two-IsValid.holds

base_set-empty : length (base.elements base_set) ≡ 0
unfolding base coarse_grained base_set flatten
base_set-empty = refl

run-passes_example :
    Ends
      (run base roomy growth 2 (λ _. second_step ∷ []) (0 ∷ 1 ∷ 0 ∷ []) base_set)
      (λ passed. passed ≡ true)
run-passes_example =
    run-passes base roomy growth 2 (λ _. second_step ∷ []) base_set in_turns base_set-IsValid
      base_set-empty
