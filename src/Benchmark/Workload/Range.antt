-- ===== src/Benchmark/Workload/Range.antt =====
-- The elements of the steps that src/benchmarks.cc draws.
use native.Mathlib.Nat.{mod-lt, mul-le-mul_right, div-mul-le_self}
use concurrent_hash_sets.Base.{
  ℕ, zero, suc, ◌+◌, ◌-◌, ◌*◌, ◌/◌, ◌%◌, ◌≤◌, ◌<◌, ◌≡◌, refl, Bool, true, ◌&&◌, List, [], ◌∷◌, some,
  get_elem?, leb, ltb, ltb→lt, Bool-cases, inl, inr, arith,
}
use concurrent_hash_sets.Element.{word}
use concurrent_hash_sets.Benchmark.Workload.{
  KeyChoice, Scenario, Step, shared, disjoint, hot_spot, sequential, thread_counts, scenarios,
  hot_keys_percent, pick_operation, pick_elem, draw_steps, step_count, build_steps,
}

window_end : (keys threads i : ℕ) → i < threads → i * (keys / threads) + keys / threads ≤ keys
window_end keys threads i h =
    let w = keys / threads in
    let room : suc i * w ≤ threads * w = mul-le-mul_right w (omega arith) in
    omega (arith, room, div-mul-le_self keys threads)

all : {A : Type 0} → (A → Bool) → List A → Bool
all p [] = true
all p (x ∷ xs) = p x && all p xs

all-get_elem? :
    {A : Type 0} (p : A → Bool) (xs : List A) (k : ℕ) {x : A}
    → all p xs ≡ true
    → get_elem? xs k ≡ some x
    → p x ≡ true
unfolding all
all-get_elem? p [] k h q = cc
all-get_elem? p (y ∷ xs) zero h q = ground arith
all-get_elem? p (y ∷ xs) (suc k) h q = all-get_elem? p xs k (ground arith) q

-- What a scenario wants of its key range for a number of threads.
record Suits (sc : Scenario) (threads : ℕ) : Type 0 where
  small : sc.keys < word
  window_pos : 0 < sc.keys / threads
  hot_pos : 0 < sc.keys / 100
  steps : sc.key_choice ≡ sequential → sc.iterations ≤ sc.keys / threads

enough : KeyChoice → ℕ → ℕ → Bool
enough sequential n window = leb n window
enough _ n window = true

suits : ℕ → Scenario → Bool
suits threads sc =
    ltb sc.keys word
    && (ltb 0 (sc.keys / threads)
        && (ltb 0 (sc.keys / 100) && enough sc.key_choice sc.iterations (sc.keys / threads)))

table_suits : all (λ threads. all (suits threads) scenarios) thread_counts ≡ true
unfolding all suits enough
table_suits = refl

both : (a b : Bool) → (a && b) ≡ true → (a ≡ true) × (b ≡ true)
both a b h = ground arith

leb→le : (a b : ℕ) → leb a b ≡ true → a ≤ b
leb→le a b h = ground arith

suits-Suits : (sc : Scenario) (threads : ℕ) → suits threads sc ≡ true → Suits sc threads
unfolding suits enough
suits-Suits sc threads h =
    let (a, h₁) = both (ltb sc.keys word) _ h in
    let (b, h₂) = both (ltb 0 (sc.keys / threads)) _ h₁ in
    let (c, d) = both (ltb 0 (sc.keys / 100)) _ h₂ in
    record {
      small = ltb→lt _ _ a;
      window_pos = ltb→lt _ _ b;
      hot_pos = ltb→lt _ _ c;
      steps = λ q. leb→le _ _ (rw q at d);
    }

same_elem : {a b : Step} {n : ℕ} → some a ≡ some b → a.elem < n → b.elem < n
same_elem {a} {b} q h = let e : a ≡ b = cc q in rw (← e) h

cold_pos : (keys : ℕ) → 0 < keys / 100 → 0 < keys - keys / 100
cold_pos keys h = omega arith

module _ {G : Type 0} (draw : G → G × ℕ) (sc : Scenario) (threads i : ℕ) (suit : Suits sc threads)
    (h : i < threads) where
  abbrev window : ℕ
  window = sc.keys / threads

  pick_elem-lt :
      (g : G) (step : ℕ)
      → (sc.key_choice ≡ sequential → step < window)
      → (pick_elem draw sc g (i * window % word) window step).1 < sc.keys
  unfolding pick_elem
  pick_elem-lt g step early = go sc.key_choice refl
    where
      go :
          (k : KeyChoice)
          → sc.key_choice ≡ k
          → (pick_elem draw sc g (i * window % word) window step).1 < sc.keys
      go disjoint q = rw q (
          omega
            (arith, window_end sc.keys threads i h, mod-lt (draw g).1 suit.window_pos, suit.small))
      go sequential q = rw q (omega (arith, window_end sc.keys threads i h, early q, suit.small))
      go hot_spot q = rw q (elim (Bool-cases (ltb ((draw g).1 % 100) hot_keys_percent)) [
        | inl hot ↦ rw hot (omega (arith, mod-lt (draw (draw g).0).1 suit.hot_pos))
        | inr cold ↦
            rw cold (
              omega (arith, mod-lt (draw (draw g).0).1 (cold_pos sc.keys suit.hot_pos), suit.small))
      ])
      go shared q = rw q (mod-lt (draw g).1 (omega (arith, suit.hot_pos)))

  draw_steps-lt :
      (n step : ℕ) (g : G) (k : ℕ) {st : Step}
      → (sc.key_choice ≡ sequential → step + n ≤ window)
      → get_elem? (draw_steps draw sc (i * window % word) window n step g) k ≡ some st
      → st.elem < sc.keys
  unfolding draw_steps
  draw_steps-lt zero step g k early q = cc
  draw_steps-lt (suc n) step g zero {st} early q =
      let first =
        pick_elem-lt (pick_operation draw sc.mix g).0 step (λ c. omega (arith, early c)) in
      same_elem q first
  draw_steps-lt (suc n) step g (suc k) early q =
      draw_steps-lt n (suc step) _ k (λ c. omega (arith, early c)) q

-- Whatever the generator yields, every step that a thread of any listed scenario is to make, with
-- any listed number of threads, is about an element below the number of keys.
pub build_steps-lt :
    {G : Type 0} (draw : G → G × ℕ) (start : ℕ → G) (n t thread_index k : ℕ) {sc : Scenario}
    {threads : ℕ} {st : Step}
    → get_elem? scenarios n ≡ some sc
    → get_elem? thread_counts t ≡ some threads
    → thread_index < threads
    → get_elem? (build_steps draw start sc thread_index threads) k ≡ some st
    → st.elem < sc.keys
unfolding build_steps
build_steps-lt draw start n t thread_index k {sc} {threads} listed counted h q =
    let row = all-get_elem? (λ c. all (suits c) scenarios) thread_counts t table_suits counted in
    let suit = suits-Suits sc threads (all-get_elem? (suits threads) scenarios n row listed) in
    draw_steps-lt draw sc threads thread_index suit h (step_count sc) 0 _ k
      (λ c. unfold step_count in rw c (omega (arith, suit.steps c))) q
