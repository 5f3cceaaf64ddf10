-- ===== src/Benchmark/Workload.antt =====
-- What the threads of src/benchmarks.cc are to do: the scenarios, and the steps drawn for
-- them. The generator, `std::mt19937_64`, is a parameter: how one is seeded and drawn from.
pub mod Range
use Prim.Native.Nat.{bit_xor}
use concurrent_hash_sets.Base.{
  ℕ, zero, suc, ◌+◌, ◌-◌, ◌*◌, ◌/◌, ◌%◌, ◌^◌, Bool, true, false, List, [], ◌∷◌, ltb, ◌==◌,
  if◌then◌else◌,
}
use concurrent_hash_sets.Element.{word}
use concurrent_hash_sets.Word.{add_word}
use concurrent_hash_sets.Bits.{shift_right}

pub data Operation : Type 0 where
  contains_elem add_elem remove_elem : Operation

pub data KeyChoice : Type 0 where
  shared disjoint hot_spot sequential : KeyChoice

-- shares of a hundred operations
pub record Mix : Type 0 where
  pub contains : ℕ
  pub add : ℕ
  pub remove : ℕ

-- without the name, which is only printed
pub record Scenario : Type 0 where
  pub mix : Mix
  pub key_choice : KeyChoice
  pub keys : ℕ
  pub initial_capacity : ℕ
  pub max_capacity : ℕ
  pub iterations : ℕ
  pub prefill : Bool

pub record Step : Type 0 where
  pub operation : Operation
  pub elem : ℕ

abbrev pub small_keys : ℕ
small_keys = 2 ^ 12

abbrev pub small_capacity : ℕ
small_capacity = 2 ^ 13

abbrev pub large_keys : ℕ
large_keys = 2 ^ 20

abbrev pub large_capacity : ℕ
large_capacity = 2 ^ 21

abbrev pub default_iterations : ℕ
default_iterations = 200000

abbrev pub outgrown_capacity : ℕ
outgrown_capacity = 2 ^ 2

abbrev pub growth_keys : ℕ
growth_keys = 2 ^ 19

abbrev pub growth_capacity : ℕ
growth_capacity = 2 ^ 10

abbrev pub growth_max_capacity : ℕ
growth_max_capacity = 2 ^ 20

abbrev pub growth_iterations : ℕ
growth_iterations = 2 ^ 15

abbrev pub steps_per_thread : ℕ
steps_per_thread = 2 ^ 14

abbrev pub hot_keys_percent : ℕ
hot_keys_percent = 90

abbrev pub seed : ℕ
seed = 25214903917

abbrev pub thread_counts : List ℕ
thread_counts = 1 ∷ 2 ∷ 4 ∷ 8 ∷ 16 ∷ []

abbrev mixed : ℕ → ℕ → ℕ → Mix
mixed c a r = record { contains = c; add = a; remove = r }

-- a scenario on few keys or on many, with room for all of them
abbrev small : Mix → KeyChoice → Scenario
small m k = record {
  mix = m;
  key_choice = k;
  keys = small_keys;
  initial_capacity = small_capacity;
  max_capacity = small_capacity;
  iterations = default_iterations;
  prefill = true;
}

abbrev large : Mix → KeyChoice → Scenario
large m k = record {
  mix = m;
  key_choice = k;
  keys = large_keys;
  initial_capacity = large_capacity;
  max_capacity = large_capacity;
  iterations = default_iterations;
  prefill = true;
}

-- `kScenarios`, in its order
abbrev pub scenarios : List Scenario
scenarios =
    small (mixed 100 0 0) shared
    ∷ small (mixed 90 5 5) shared
    ∷ large (mixed 90 5 5) shared
    ∷ small (mixed 50 25 25) shared
    ∷ large (mixed 50 25 25) shared
    ∷ small (mixed 20 40 40) shared
    ∷ large (mixed 50 25 25) disjoint
    ∷ large (mixed 50 25 25) hot_spot
    ∷ record (large (mixed 90 5 5) shared) { initial_capacity = outgrown_capacity }
    ∷ record {
      mix = mixed 0 100 0;
      key_choice = sequential;
      keys = growth_keys;
      initial_capacity = growth_capacity;
      max_capacity = growth_max_capacity;
      iterations = growth_iterations;
      prefill = false;
    }
    ∷ []

-- `StartsPresent`
pub starts_present : ℕ → Bool
starts_present elem =
    let a = add_word elem 11400714819323198485 in
    let b = bit_xor a (shift_right a 30) * 13787848793156543929 % word in
    let c = bit_xor b (shift_right b 27) * 10723151780598845931 % word in
    bit_xor c (shift_right c 31) % 2 == 0

-- `mix.contains + mix.add` is a sum of 32-bit numbers
unfoldable pub operation_of : Mix → ℕ → Operation
operation_of mix choice =
    if ltb choice mix.contains
    then contains_elem
    else (if ltb choice ((mix.contains + mix.add) % 2 ^ 32) then add_elem else remove_elem)

-- `count` of `BuildSteps`
unfoldable pub step_count : Scenario → ℕ
step_count sc = elim sc.key_choice [ sequential ↦ sc.iterations | _ ↦ steps_per_thread ]

module _ {G : Type 0} (draw : G → G × ℕ) where
  unfoldable pub pick_operation : Mix → G → G × Operation
  pick_operation mix g = let (g', n) = draw g in (g', operation_of mix (n % 100))

  unfoldable pub pick_elem : Scenario → G → ℕ → ℕ → ℕ → G × ℕ
  pick_elem sc g window_start window step = elim sc.key_choice [
    | disjoint ↦ let (g₁, n) = draw g in (g₁, add_word window_start (n % window))
    | sequential ↦ (g, add_word window_start step)
    | hot_spot ↦
        let hot_keys = sc.keys / 100 in
        let (g₁, n) = draw g in
        let (g₂, m) = draw g₁ in
        if ltb (n % 100) hot_keys_percent
        then (g₂, m % hot_keys)
        else (g₂, add_word hot_keys (m % (sc.keys - hot_keys)))
    | shared ↦ let (g₁, n) = draw g in (g₁, n % sc.keys)
  ]

  -- the loop of `BuildSteps`, from step `i` on
  unfoldable pub draw_steps : Scenario → ℕ → ℕ → ℕ → ℕ → G → List Step
  draw_steps sc window_start window zero i g = []
  draw_steps sc window_start window (suc n) i g =
      let (g₁, op) = pick_operation sc.mix g in
      let (g₂, x) = pick_elem sc g₁ window_start window i in
      record { operation = op; elem = x } ∷ draw_steps sc window_start window n (suc i) g₂

  unfoldable pub build_steps : (ℕ → G) → Scenario → ℕ → ℕ → List Step
  build_steps start sc thread_index threads =
      let window = sc.keys / threads in
      draw_steps sc (thread_index * window % word) window (step_count sc) 0
        (start (add_word seed thread_index))
