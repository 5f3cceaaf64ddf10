-- ===== src/Tests/Keys.antt =====
-- Keys of the lock-free list.
use concurrent_hash_sets.Base.{ℕ, ◌≤◌, ◌<◌, ◌≡◌, ◌%◌, ◌^◌, arith}
use concurrent_hash_sets.Tests.{numbers}
use concurrent_hash_sets.BucketList.Keys.{
  make_ordinary_key, make_sentinel_key, reverse_bits, byteswap,
}
use concurrent_hash_sets.BucketList.Keys.Reversed.{reversed}
use concurrent_hash_sets.BucketList.Keys.Reverse.{reverse_bits_lem}
use concurrent_hash_sets.BucketList.Keys.Order.{last_sentinel}
use concurrent_hash_sets.LockFree.{parent_index}
use concurrent_hash_sets.LockFree.Sentinels.{parent_before}

reverse_bits_lem_example : reverse_bits 6 ≡ reversed 64 6
reverse_bits_lem_example = reverse_bits_lem 6

last_sentinel_example :
    (make_sentinel_key 1 ≤ make_sentinel_key (numbers.hash 13 % 2 ^ 3))
    × (make_sentinel_key (numbers.hash 13 % 2 ^ 3) < make_ordinary_key {T = ℕ} 13)
unfolding make_sentinel_key make_ordinary_key reverse_bits byteswap
last_sentinel_example = last_sentinel {T = ℕ} 3 1 13 (omega arith) (omega arith) (omega arith)

parent_before_example : make_sentinel_key (parent_index 7) < make_sentinel_key 7
parent_before_example = parent_before 7 (omega arith) (omega arith)
