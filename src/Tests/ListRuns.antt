-- ===== src/Tests/ListRuns.antt =====
-- A thread that adds 5 to a new list, and one that looks for it.
use concurrent_hash_sets.Base.{ℕ, ◌≤◌, ◌≡◌, ◌↔◌, refl, true, false, ℕ_discrete, arith}
use concurrent_hash_sets.History.{add, Allowed}
use concurrent_hash_sets.Tests.{numbers}
use concurrent_hash_sets.BucketList.Keys.{
  make_ordinary_key, make_sentinel_key, reverse_bits, byteswap,
}
use concurrent_hash_sets.BucketList.Heap.{
  root, make_root, new_node, store_next, matches, at_or_past,
}
use concurrent_hash_sets.BucketList.Order.{times}
use concurrent_hash_sets.BucketList.World.{sought, contents_after, Trail, here, next}
use concurrent_hash_sets.BucketList.Machine.{
  idle, find_head, adding, returning, System, goto, begun, initial, Reach, start, later, call_add,
  call_sentinel_for, advance, at_next, at_window, target, place,
}
use concurrent_hash_sets.BucketList.Machine.Threads.{Answered}
use concurrent_hash_sets.BucketList.Machine.Linearizable.{
  Present, list_linearizable, list_answers, retired_at_most_once, reachable_not_retired,
  no_duplicates, sentinel_for_lem,
}
use concurrent_hash_sets.BucketList.Machine.Alone.{run_alone}
use concurrent_hash_sets.BucketList.Machine.Alone.Ends.{finishes_alone}

abbrev empty : System ℕ
empty = initial 0

abbrev called : System ℕ
called = goto 0 (find_head (adding 5 0) root) (begun 0 empty)

abbrev one_step : System ℕ → System ℕ
one_step s = advance 0 0 (s.pc 0) s

abbrev done : System ℕ
done = one_step (one_step (one_step called))

to_called : Reach 0 called
unfolding make_root ℕ_discrete
to_called = call_add 0 5 root start refl refl (omega arith)

to_done : Reach 0 done
to_done = later 0 (later 0 (later 0 to_called))

done_pc : done.pc 0 ≡ returning (add 5) true
unfolding advance at_next at_window target matches at_or_past make_root new_node store_next
    ℕ_discrete make_ordinary_key reverse_bits byteswap
done_pc = refl

present_at :
    (Trail done.heap root 3)
    × (done.heap.marked 3 ≡ false)
    × (matches 3 (sought 5) done.heap ≡ true)
unfolding advance at_next at_window target matches at_or_past make_root new_node store_next
    ℕ_discrete make_ordinary_key reverse_bits byteswap
present_at = (next here (omega arith), refl, refl)

list_linearizable_example :
    Allowed (λ y. false) done.events (contents_after done.events)
    × ((x : ℕ) → (contents_after done.events x ≡ true) ↔ Present done.heap x)
list_linearizable_example = list_linearizable to_done

list_answers_example : Answered 0 (done.began 0) (add 5) true done.events
list_answers_example = list_answers to_done 0 (add 5) true done_pc

retired_at_most_once_example : times 3 done.heap.retired ≤ 1
retired_at_most_once_example = retired_at_most_once to_done 3

reachable_not_retired_example : times 3 done.heap.retired ≡ 0
unfolding advance at_next at_window target matches at_or_past make_root new_node store_next
    ℕ_discrete make_ordinary_key reverse_bits byteswap
reachable_not_retired_example = reachable_not_retired to_done root 3 refl present_at.0

no_duplicates_example : ◌≡◌ {A = ℕ} 3 3
no_duplicates_example =
    no_duplicates to_done 5 3 3 present_at.0 present_at.0 present_at.1 present_at.1 present_at.2
      present_at.2

-- the same, by a thread that is now alone
finishes_alone_example : (n : ℕ) × ((run_alone 0 0 n called).pc 0 ≡ idle)
finishes_alone_example = finishes_alone 0 to_called

-- a thread that asks for the sentinel of bucket 1
abbrev asked : System ℕ
asked = place 0 1 root (begun 0 empty)

abbrev given_one : System ℕ
given_one = one_step (one_step (one_step asked))

to_given_one : Reach 0 given_one
unfolding make_root ℕ_discrete
to_given_one =
    later 0 (later 0 (later 0 (call_sentinel_for 0 1 root start refl refl (omega arith))))

sentinel_for_lem_example :
    Trail given_one.heap root 3
    × (given_one.heap.marked 3 ≡ false)
    × (given_one.heap.key 3 ≡ make_sentinel_key 1)
unfolding advance at_next at_window target matches at_or_past make_root new_node store_next
    ℕ_discrete make_sentinel_key reverse_bits byteswap
sentinel_for_lem_example = sentinel_for_lem to_given_one 0 1 3 refl
