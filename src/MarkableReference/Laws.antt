-- ===== src/MarkableReference/Laws.antt =====
-- Reading, writing and exchanging the word of src/MarkableReference.h.
use concurrent_hash_sets.Base.{
  ℕ, ◌+◌, ◌*◌, ◌/◌, ◌%◌, ◌<◌, ◌≡◌, ◌↔◌, ap, Bool, true, false, not, ◌==◌, if◌then◌else◌, arith,
}
use concurrent_hash_sets.Element.{word}
use concurrent_hash_sets.Bits.Digits.{or-one, or-zero, and-mask, and-even}
use concurrent_hash_sets.MarkableReference.{
  Address, pack, unpack, is_marked, load, store, compare_and_set, attempt_mark,
}

-- An address of a type that is not byte aligned, as `static_assert(alignof(Node) > 1)` demands.
pub record IsAligned (ref : Address) : Type 0 where
  pub fits : ref < word
  pub even : ref % 2 ≡ 0

pack-add :
    (ref : Address) (marked : Bool)
    → IsAligned ref
    → pack ref marked ≡ ref + (if marked then 1 else 0)
unfolding pack
pack-add ref true a = omega (arith, or-one ref, a.even)
pack-add ref false a = omega (arith, or-zero ref)

unpack-even : (packed : ℕ) → packed < word → unpack packed ≡ packed / 2 * 2
unfolding unpack
unpack-even packed h = and-even 63 packed h

is_marked-odd : (packed : ℕ) → is_marked packed ≡ not (packed % 2 == 0)
unfolding is_marked
is_marked-odd packed = ap (λ (t : ℕ). not (t == 0)) (and-mask 1 packed)

pack-lt : (ref : Address) (marked : Bool) → IsAligned ref → pack ref marked < word
pack-lt ref marked a = ground (arith, pack-add ref marked a, a.even, a.fits)

unpack-pack : (ref : Address) (marked : Bool) → IsAligned ref → unpack (pack ref marked) ≡ ref
unpack-pack ref marked a =
    ground
      (arith, unpack-even (pack ref marked) (pack-lt ref marked a), pack-add ref marked a, a.even)

is_marked-pack :
    (ref : Address) (marked : Bool) → IsAligned ref → is_marked (pack ref marked) ≡ marked
is_marked-pack ref marked a =
    ground (arith, is_marked-odd (pack ref marked), pack-add ref marked a, a.even)

load-pack : (ref : Address) (marked : Bool) → IsAligned ref → load (pack ref marked) ≡ (ref, marked)
unfolding load
load-pack ref marked a = λ i. (unpack-pack ref marked a i, is_marked-pack ref marked a i)

-- What Store puts into the word of a markable reference, Load reads back: the aligned reference and
-- the mark.
pub load-store :
    (ref : Address) (marked : Bool) (packed : ℕ)
    → IsAligned ref
    → load (store ref marked packed) ≡ (ref, marked)
unfolding store
load-store ref marked packed a = load-pack ref marked a

pub pack-injective :
    (r s : Address) (m n : Bool)
    → IsAligned r
    → IsAligned s
    → pack r m ≡ pack s n
    → (r ≡ s) × (m ≡ n)
pack-injective r s m n a b h = ground (arith, pack-add r m a, pack-add s n b, a.even, b.even)

module _ (ref expected new : Address) (mark expected_mark new_mark : Bool) (a : IsAligned ref)
    (b : IsAligned expected) (c : IsAligned new) where
  -- CompareAndSet on aligned references exchanges exactly if both the reference and the mark are
  -- the expected ones; then Load reads the new ones, and else the word is what it was.
  pub compare_and_set_lem :
      let r : ℕ × Bool = compare_and_set expected expected_mark new new_mark (store ref mark 0) in
      ((r.1 ≡ true) ↔ ((ref ≡ expected) × (mark ≡ expected_mark)))
      × (r.1 ≡ true → load r.0 ≡ (new, new_mark))
      × (r.1 ≡ false → r.0 ≡ store ref mark 0)
  unfolding compare_and_set store
  compare_and_set_lem = (
    (
      λ q. pack-injective ref expected mark expected_mark a b (ground arith),
      λ q. ground (arith, q.0, q.1),
    ),
    λ q. ground (arith, load-pack new new_mark c),
    λ q. ground arith,
  )

-- While an aligned reference is marked, every CompareAndSet that expects an aligned reference
-- without a mark and every AttemptMark to set it fails and changes nothing.
pub marked_stays :
    (ref expected new : Address) (new_mark : Bool)
    → IsAligned ref
    → IsAligned expected
    → (compare_and_set expected false new new_mark (store ref true 0) ≡ (store ref true 0, false))
      × (attempt_mark expected true (store ref true 0) ≡ (store ref true 0, false))
unfolding compare_and_set attempt_mark store
marked_stays ref expected new new_mark a b = (
  ground (arith, pack-add ref true a, pack-add expected false b, a.even, b.even),
  ground (arith, pack-add ref true a, pack-add expected false b, a.even, b.even),
)

-- AttemptMark on an unmarked aligned reference succeeds, sets the mark and keeps the reference.
pub attempt_mark_lem :
    (ref : Address)
    → IsAligned ref
    → ((attempt_mark ref true (store ref false 0)).1 ≡ true)
      × (load (attempt_mark ref true (store ref false 0)).0 ≡ (ref, true))
unfolding compare_and_set attempt_mark store
attempt_mark_lem ref a = (ground arith, ground (arith, load-pack ref true a))
