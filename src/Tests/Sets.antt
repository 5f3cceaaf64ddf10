-- ===== src/Tests/Sets.antt =====
-- Runs of the sequential, the coarse-grained and the striped set by one thread.
use concurrent_hash_sets.Base.{ℕ, ◌≡◌, refl, true, false, [], replicate, flatten, arith}
use concurrent_hash_sets.Table.{home, rehash, refilled}
use concurrent_hash_sets.Table.Contents.{empty-HoldsSet, HoldsSet}
use concurrent_hash_sets.Table.Rehash.{SameContents, rehash-SameContents}
use concurrent_hash_sets.Outcome.{returns}
use concurrent_hash_sets.Bucket.{has, push_back}
use concurrent_hash_sets.Locked
use concurrent_hash_sets.Table.Ends.{AddEnds-Updates}
use concurrent_hash_sets.Locked.{Locked}
use concurrent_hash_sets.History.{add, remove}
use concurrent_hash_sets.Sequential
use concurrent_hash_sets.Sequential.{HashSetSequential}
use concurrent_hash_sets.Sequential.Laws.{IsValid, Changes, Ended, add-AddEnds, remove-Changes}
use concurrent_hash_sets.Sequential.Results.{IsSparse, add-returns, add-IsSparse}
use concurrent_hash_sets.Striped
use concurrent_hash_sets.Striped.{HashSetStriped}
use concurrent_hash_sets.Striped.Laws.{Changed, AddEnded, add-AddEnded, add-IsValid, remove-Changed}
use concurrent_hash_sets.Striped.Commute.{section, section-section}
use concurrent_hash_sets.Tests.{numbers, roomy}

abbrev empty : HashSetSequential ℕ
empty = record { table = replicate 2 []; set_size = 0 }

empty_table : HoldsSet {T = ℕ} 2 (replicate 2 []) 0
empty_table = empty-HoldsSet 2 (omega arith) (omega arith)

-- a set that holds 5
abbrev with_5 : HashSetSequential ℕ
with_5 = (Sequential.add roomy 5 empty).0

with_5-IsValid : IsValid with_5
unfolding refilled Sequential.bucket_index home push_back flatten
with_5-IsValid =
    (AddEnds-Updates (add-AddEnds empty_table 5 roomy)
      (add-returns roomy 5 empty refl refl refl)).holds

add-AddEnds_example : Ended with_5-IsValid 7 roomy (Sequential.add roomy 7 with_5)
add-AddEnds_example = add-AddEnds with_5-IsValid 7 roomy

remove-Changes_example : Changes with_5-IsValid 5 false (Sequential.remove 5 with_5).0
remove-Changes_example = remove-Changes with_5-IsValid 5

add-IsSparse_example : IsSparse (Sequential.add roomy 7 empty).0
unfolding refilled Sequential.bucket_index home push_back flatten
add-IsSparse_example =
    add-IsSparse roomy 7 empty_table (omega arith) (add-returns roomy 7 empty refl refl refl)

rehash-SameContents_example : SameContents {T = ℕ} 2 4 (replicate 2 []) (rehash 4 (replicate 2 []))
rehash-SameContents_example = rehash-SameContents 4 empty_table.is_placed (omega arith)

abbrev locked : Locked ℕ
locked = record { table = replicate 2 []; capacity = 2; set_size = 0 }

abbrev striped : HashSetStriped ℕ
striped = record { core = locked; mutexes = 2 }

striped-IsValid : Striped.Laws.IsValid striped
striped-IsValid = record { holds = empty_table; striped = (1, refl) }

abbrev striped_5 : HashSetStriped ℕ
striped_5 = (Striped.add roomy 5 striped).0

striped_returns : (Striped.add roomy 5 striped).1 ≡ returns true
unfolding Striped.add Striped.grow Locked.add_section Locked.bucket Locked.bucket_index Locked.push
    Locked.count_up Locked.policy home has push_back
striped_returns = refl

striped_5-IsValid : Striped.Laws.IsValid striped_5
striped_5-IsValid = add-IsValid striped-IsValid 5 roomy striped_returns

add-AddEnded_example : AddEnded roomy striped_5-IsValid 7 (Striped.add roomy 7 striped_5)
add-AddEnded_example = add-AddEnded striped_5-IsValid 7 roomy

section-section_example :
    (section (remove 4) (section (add 5) locked).0
      ≡ ((section (add 5) (section (remove 4) locked).0).0, (section (remove 4) locked).1))
    × (section (add 5) (section (remove 4) locked).0
        ≡ ((section (remove 4) (section (add 5) locked).0).0, (section (add 5) locked).1))
section-section_example =
    section-section (add 5) (remove 4) striped (1, refl)
      (unfold Striped.mutex_index home in λ q. absurd (omega arith))
