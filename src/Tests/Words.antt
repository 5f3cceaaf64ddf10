-- ===== src/Tests/Words.antt =====
-- Marked references, places in the arena, and capacities of the lock-free set.
use concurrent_hash_sets.Base.{ℕ, ◌^◌, ◌%◌, ◌≤◌, ◌<◌, ◌≡◌, ◌↔◌, refl, Bool, true, false, arith}
use concurrent_hash_sets.Outcome.{returns}
use concurrent_hash_sets.MarkableReference.{load, store, compare_and_set, attempt_mark}
use concurrent_hash_sets.MarkableReference.Laws.{
  IsAligned, load-store, compare_and_set_lem, marked_stays,
}
use concurrent_hash_sets.LockFree.{check_capacities, parent_index, resize_if_necessary}
use concurrent_hash_sets.LockFree.Capacity.{
  IsCapacity, IsMaximum, check_capacities_iff, resize_if_necessary-IsCapacity,
}
use concurrent_hash_sets.LockFree.Parent.{parent_index_lem}
use concurrent_hash_sets.Refinable.Arena.{
  max_blocks, validated_shift, block_index, block_offset, block_size,
}
use concurrent_hash_sets.Refinable.Arena.Mutexes.{
  block_offset-lt, mutex_injective, validated_shift_iff,
}

IsAligned-64 : IsAligned 64
IsAligned-64 = record { fits = omega arith; even = refl }

IsAligned-128 : IsAligned 128
IsAligned-128 = record { fits = omega arith; even = refl }

load-store_example : load (store 64 true 0) ≡ (64, true)
load-store_example = load-store 64 true 0 IsAligned-64

compare_and_set_lem_example :
    let r : ℕ × Bool = compare_and_set 64 false 128 true (store 64 false 0) in
    ((r.1 ≡ true) ↔ ((◌≡◌ {A = ℕ} 64 64) × (◌≡◌ {A = Bool} false false)))
    × (r.1 ≡ true → load r.0 ≡ (128, true))
    × (r.1 ≡ false → r.0 ≡ store 64 false 0)
compare_and_set_lem_example =
    compare_and_set_lem 64 64 128 false false true IsAligned-64 IsAligned-64 IsAligned-128

marked_stays_example :
    (compare_and_set 64 false 128 false (store 64 true 0) ≡ (store 64 true 0, false))
    × (attempt_mark 64 true (store 64 true 0) ≡ (store 64 true 0, false))
marked_stays_example = marked_stays 64 64 128 false IsAligned-64 IsAligned-64

block_offset-lt_example :
    (block_offset 2 13 < block_size 2 (block_index 2 13)) × (block_index 2 13 < max_blocks)
block_offset-lt_example = block_offset-lt 2 13 (omega arith) (omega arith)

mutex_injective_example : ◌≡◌ {A = ℕ} 13 13
mutex_injective_example = mutex_injective 2 13 13 (omega arith) (omega arith) refl refl

validated_shift_iff_example : (validated_shift 8 ≡ returns 3) ↔ ((8 ≡ 2 ^ 3) × (0 < 3))
validated_shift_iff_example = validated_shift_iff 8 3 (omega arith)

check_capacities_iff_example :
    (check_capacities 4 16 ≡ returns tt) ↔ (IsCapacity 16 4 × IsMaximum 16)
check_capacities_iff_example = check_capacities_iff 4 16 (omega arith) (omega arith)

sixteen : IsMaximum 16
sixteen = record { exponent = 4; power = refl; bounded = omega arith }

four : IsCapacity 16 4
four = record { exponent = 2; power = refl; at_least_two = omega arith; bounded = omega arith }

resize_if_necessary-IsCapacity_example :
    IsCapacity 16 (resize_if_necessary 16 4 4 4) × (4 ≤ resize_if_necessary 16 4 4 4)
resize_if_necessary-IsCapacity_example = resize_if_necessary-IsCapacity 16 4 4 4 sixteen four

parent_index_lem_example : (parent_index 6 < 2 ^ 2) × (14 % 2 ^ 2 ≡ parent_index 6)
parent_index_lem_example = parent_index_lem 2 6 14 (omega arith) (omega arith) (omega arith) refl
