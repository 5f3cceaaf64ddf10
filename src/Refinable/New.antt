-- ===== src/Refinable/New.antt =====
-- The constructor of src/HashSetRefinable.h.
use concurrent_hash_sets.Base.{
  ℕ, zero, suc, ◌^◌, ◌≤◌, ◌<◌, ◌≡◌, refl, sym, ◌∙◌, ap, true, false, List, [], Option, none, some,
  get_or, set, replicate, get_or-replicate, arith,
}
use concurrent_hash_sets.Element.{Element}
use concurrent_hash_sets.Outcome.{returns, Allocator}
use concurrent_hash_sets.Table.Contents.{most_buckets, empty-HoldsSet, empty-member}
use concurrent_hash_sets.Locked
use concurrent_hash_sets.Bits.Digits.{pow-pos}
use concurrent_hash_sets.Bits.Powers.{exponent-lt}
use concurrent_hash_sets.Refinable.Arena.{max_blocks, block_size}
use concurrent_hash_sets.Refinable.Arena.Laws.{block_size-first}
use concurrent_hash_sets.Refinable.Arena.Mutexes.{validated_shift_iff}
use concurrent_hash_sets.Refinable.{HashSetRefinable, done, new, enlarge_mutex_arena}
use concurrent_hash_sets.Refinable.Laws.{IsValid}

abbrev pub first_arena : ℕ → List (Option ℕ)
first_arena c = set (replicate max_blocks none) 0 (some c)

first_block :
    (c k b : ℕ) → b ≤ 0 → block_size k 0 ≡ c → get_or (first_arena c) b none ≡ some (block_size k b)
first_block c k zero h e = ap some (sym e)
first_block c k (suc b) h e = absurd (omega arith)

other_blocks : (c b : ℕ) → 0 < b → get_or (first_arena c) b none ≡ none
other_blocks c zero h = absurd (omega arith)
other_blocks c (suc b) h = get_or-replicate 64 b none

-- the first block has a mutex for each bucket
first_size : (c k : ℕ) → c ≡ 2 ^ k → c ≤ most_buckets → block_size k 0 ≡ c
first_size c k power small = block_size-first k (exponent-lt k (omega (arith, power))) ∙ sym power

module _ {T : Type 0} ⦃e : Element T⦄ where
  -- a new set of `c` buckets, `2 ^ k` in number
  abbrev pub made : ℕ → ℕ → HashSetRefinable T
  made c k = record {
    core = record { table = replicate c []; capacity = c; set_size = 0 };
    initial_shift = k;
    arena = first_arena c;
    resizing = false;
  }

  module _ (c k : ℕ) (power : c ≡ 2 ^ k) (pos : 0 < k) (small : c ≤ most_buckets) where
    pub made-IsValid : IsValid 0 (made c k)
    made-IsValid = record {
      holds = empty-HoldsSet c (omega (arith, power, pow-pos k)) small;
      has_arena = record {
        power = power ∙ ap (λ (t : ℕ). 2 ^ t) (omega arith);
        small = small;
        allocated = λ b h. first_block c k b h (first_size c k power small);
        unused = λ b h. other_blocks c b h;
        slots = refl;
      };
      idle = refl;
    }

  -- The constructor of the refinable set accepts a power of two from 2 on and makes a valid empty
  -- set, if the table and its mutexes can be allocated.
  pub new_lem :
      (mem : Allocator) (c k : ℕ)
      → c ≡ 2 ^ k
      → 0 < k
      → mem.fits c ≡ true
      → (s : HashSetRefinable T) × (new mem c ≡ done (returns s))
        × IsValid 0 s
        × ((x : T) → Locked.contains x s.core ≡ false)
        × (s.initial_shift ≡ k)
  unfolding new enlarge_mutex_arena
  new_lem mem c k power pos fits =
      let small = mem.fits_small c fits in
      let shift = (validated_shift_iff c k (omega arith)).1 (power, pos) in
      (
        made c k,
        rw (shift, new, fits, first_size c k power small, fits),
        made-IsValid c k power pos small,
        unfold Locked.contains Locked.bucket in empty-member c,
        refl,
      )
