-- ===== src/MarkableReference.antt =====
-- src/MarkableReference.h: a pointer and a mark in one atomic word. The state is the value of
-- `packed_`; each method is one atomic access, and memory orders are left out.
pub mod Laws
use Prim.Native.Nat.{bit_and, bit_or}
use concurrent_hash_sets.Base.{ℕ, ◌-◌, ◌%◌, ◌<◌, ◌≡◌, Bool, true, false, not, ◌==◌, if◌then◌else◌}
use concurrent_hash_sets.Element.{word}

-- a pointer as the integer that `reinterpret_cast` makes of it
abbrev pub Address : Type 0
Address = ℕ

abbrev pub mark_bit : ℕ
mark_bit = 1

unfoldable pub pack : Address → Bool → ℕ
pack ref marked = bit_or ref (if marked then mark_bit else 0)

-- `packed & ~kMarkBit`
unfoldable pub unpack : ℕ → Address
unpack packed = bit_and packed (word - 1 - mark_bit)

-- `IsMarked`
unfoldable pub is_marked : ℕ → Bool
is_marked packed = not (bit_and packed mark_bit == 0)

-- `Load(marked)`, the reference and the mark of one load
unfoldable pub load : ℕ → Address × Bool
load packed = (unpack packed, is_marked packed)

-- `Store`, whatever stood there
unfoldable pub store : Address → Bool → ℕ → ℕ
store ref marked packed = pack ref marked

-- `CompareAndSet`: the word afterwards, and whether it was exchanged
unfoldable pub compare_and_set : Address → Bool → Address → Bool → ℕ → ℕ × Bool
compare_and_set expected_ref expected_mark new_ref new_mark packed =
    if packed == pack expected_ref expected_mark
    then (pack new_ref new_mark, true)
    else (packed, false)

unfoldable pub attempt_mark : Address → Bool → ℕ → ℕ × Bool
unfolding compare_and_set
attempt_mark expected_ref new_mark packed =
    compare_and_set expected_ref (not new_mark) expected_ref new_mark packed
