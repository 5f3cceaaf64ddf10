-- ===== src/Refinable/Places.antt =====
-- The mutexes that src/HashSetRefinable.h has allocated after some resizes, and what that makes of
-- the operations on the arena.
use concurrent_hash_sets.Base.{
  ℕ, zero, suc, ◌+◌, ◌*◌, ◌^◌, ◌≤◌, ◌<◌, ◌≡◌, refl, sym, ◌∙◌, ap, Bool, true, false, none, some,
  get_or, set, length, length-set, get_or-set_self, get_or-set_ne, lt→ltb, arith, ℕ_discrete,
}
use native.Mathlib.Nat.{pow-suc}
use concurrent_hash_sets.Element.{word_bits}
use concurrent_hash_sets.Outcome.{returns, throws, allocation_failed, Allocator}
use concurrent_hash_sets.Table.Contents.{most_buckets}
use concurrent_hash_sets.Locked.{Locked}
use concurrent_hash_sets.Bits.Powers.{exponent-lt}
use concurrent_hash_sets.Refinable.Arena.{max_blocks, block_index, block_offset, block_size}
use concurrent_hash_sets.Refinable.Arena.Laws.{block_size-later}
use concurrent_hash_sets.Refinable.Arena.Mutexes.{
  block_offset-lt, block_index-le, block_index-capacity,
}
use concurrent_hash_sets.Refinable.{HashSetRefinable, done, get_mutex, enlarge_mutex_arena, quiesce}

module _ {T : Type 0} where
  -- The arena after `rounds` resizes.
  pub record HasArena (rounds : ℕ) (s : HashSetRefinable T) : Type 0 where
    pub power : s.capacity ≡ 2 ^ (s.initial_shift + rounds)
    pub small : s.capacity ≤ most_buckets
    pub allocated :
        (b : ℕ) → b ≤ rounds → get_or s.arena b none ≡ some (block_size s.initial_shift b)
    pub unused : (b : ℕ) → rounds < b → get_or s.arena b none ≡ none
    pub slots : length s.arena ≡ max_blocks

  module _ {rounds : ℕ} {s : HashSetRefinable T} (a : HasArena rounds s) where
    exponent : s.initial_shift + rounds < word_bits
    exponent = exponent-lt (s.initial_shift + rounds) (omega (arith, a.power, a.small))

    -- Every bucket of the table has an allocated mutex.
    pub get_mutex-done :
        (index : ℕ)
        → index < s.capacity
        → get_mutex s index
          ≡ done (block_index s.initial_shift index, block_offset s.initial_shift index)
    unfolding get_mutex
    get_mutex-done index h =
        let bound =
          block_index-le s.initial_shift rounds index (omega (arith, a.small))
            (omega (arith, a.power)) in
        let inside =
          (block_offset-lt s.initial_shift index (omega (arith, exponent))
            (omega (arith, a.small))).0 in
        rw (a.allocated _ bound, get_mutex, lt→ltb _ _ inside)

    pub quiesce-done : (n index : ℕ) → index + n ≤ s.capacity → quiesce s n index ≡ done tt
    unfolding quiesce
    quiesce-done zero index h = refl
    quiesce-done (suc n) index h =
        rw (get_mutex-done index (omega arith)) (quiesce-done n (index + 1) (omega arith))

    next_block : block_index s.initial_shift s.capacity ≡ suc rounds
    next_block =
        rw a.power (block_index-capacity s.initial_shift rounds (omega (arith, a.power, a.small)))

    next_size : block_size s.initial_shift (suc rounds) ≡ s.capacity
    next_size = block_size-later s.initial_shift rounds exponent ∙ sym a.power

    -- The resize number `rounds + 1` finds its block unused.
    pub enlarge-done :
        (mem : Allocator)
        → mem.fits s.capacity ≡ true
        → enlarge_mutex_arena mem (block_index s.initial_shift s.capacity) s
          ≡ done (record s { arena = set s.arena (suc rounds) (some s.capacity) }, returns tt)
    unfolding enlarge_mutex_arena
    enlarge-done mem fits = rw (
      next_block,
      a.unused (suc rounds) (omega arith),
      enlarge_mutex_arena,
      next_block,
      next_size,
      fits,
    )

    pub enlarge-throws :
        (mem : Allocator)
        → mem.fits s.capacity ≡ false
        → enlarge_mutex_arena mem (block_index s.initial_shift s.capacity) s
          ≡ done (s, throws allocation_failed)
    unfolding enlarge_mutex_arena
    enlarge-throws mem full = rw (
      next_block,
      a.unused (suc rounds) (omega arith),
      enlarge_mutex_arena,
      next_block,
      next_size,
      full,
    )

  pub grown-HasArena :
      {rounds : ℕ} {s : HashSetRefinable T} {c : Locked T} {b : Bool}
      → HasArena rounds s
      → c.capacity ≡ 2 * s.capacity
      → 2 * s.capacity ≤ most_buckets
      → HasArena (suc rounds) (record {
        core = c;
        initial_shift = s.initial_shift;
        arena = set s.arena (suc rounds) (some s.capacity);
        resizing = b;
      })
  grown-HasArena {rounds} {s} a double small = record {
    power =
        let up : 2 ^ (s.initial_shift + suc rounds) ≡ 2 ^ (s.initial_shift + rounds) * 2 =
          ap (λ (t : ℕ). 2 ^ t) (omega arith) ∙ pow-suc 2 (s.initial_shift + rounds) in
        omega (arith, double, up, a.power);
    small = rw double small;
    allocated = λ b h. elim (ℕ_discrete (suc rounds) b) [
      | yes q ↦ rw (← q) (
          get_or-set_self s.arena (suc rounds) (some s.capacity) none
            (omega (arith, a.slots, exponent a))
          ∙ ap some (sym (next_size a)))
      | no q ↦
          rw (get_or-set_ne s.arena (suc rounds) b (some s.capacity) none q)
            (a.allocated b (omega arith))
    ];
    unused = λ b h.
        rw (get_or-set_ne s.arena (suc rounds) b (some s.capacity) none (omega arith))
          (a.unused b (omega arith));
    slots = rw length-set a.slots;
  }
