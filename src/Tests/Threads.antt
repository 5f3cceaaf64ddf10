-- ===== src/Tests/Threads.antt =====
-- Two threads on the coarse-grained set: the first adds 5 while the second looks it up.
use concurrent_hash_sets.Base.{
  ℕ, ◌%◌, ◌≡◌, refl, true, false, none, some, List, [], ◌∷◌, length, flatten, update, ℕ_discrete,
  arith,
}
use concurrent_hash_sets.Element.{word}
use concurrent_hash_sets.Outcome.{returns}
use concurrent_hash_sets.Bucket.{has, push_back}
use concurrent_hash_sets.Table.{home, refilled}
use concurrent_hash_sets.History.{add, contains, Event, Allowed, latest}
use concurrent_hash_sets.Locked
use concurrent_hash_sets.CoarseGrained.Threads.{
  System, Reach, start, later, initial, outside, acquire, release, inside, call, lock_section,
  unlock_section, absent, push, count_up, look, locked, entering, adding, pushed, unlocking,
  policy_capacity, returning,
}
use concurrent_hash_sets.CoarseGrained.Threads.Linearizable.{
  contents, linearizable, mutual_exclusion, answer_of_event, quiet_size,
}
use concurrent_hash_sets.CoarseGrained.Threads.Owners.{Reach-ReachAny}
use concurrent_hash_sets.CoarseGrained.Threads.Progress.{Releasing, section_ends}
use concurrent_hash_sets.Tests.{numbers, roomy}

abbrev at_0 : System ℕ
at_0 = initial 2

abbrev at_1 : System ℕ
at_1 = record at_0 { pc = update at_0.pc 0 (entering (add 5)) }

abbrev at_2 : System ℕ
at_2 = record at_1 { pc = update at_1.pc 1 (entering (contains 5)) }

abbrev at_3 : System ℕ
at_3 = record at_2 { owner = some 0; pc = update at_2.pc 0 (locked (add 5)) }

abbrev at_4 : System ℕ
at_4 = record at_3 { pc = update at_3.pc 0 (adding 5) }

abbrev at_5 : System ℕ
at_5 = record at_4 { core = Locked.push 5 at_4.core; pc = update at_4.pc 0 (pushed 5) }

abbrev at_6 : System ℕ
at_6 = record at_5 {
  core = Locked.count_up at_5.core;
  pc = update at_5.pc 0 (unlocking (add 5) true);
}

abbrev at_7 : System ℕ
at_7 = record at_6 { owner = none; pc = update at_6.pc 0 (policy_capacity 5) }

abbrev at_8 : System ℕ
at_8 = record at_7 { owner = some 1; pc = update at_7.pc 1 (locked (contains 5)) }

abbrev at_9 : System ℕ
at_9 = record at_8 { pc = update at_8.pc 1 (unlocking (contains 5) true) }

abbrev at_10 : System ℕ
at_10 = record at_9 { owner = none; pc = update at_9.pc 1 (returning (contains 5) (returns true)) }

abbrev added : List (Event ℕ)
added = record { thread = 0; op = add 5; answer = true } ∷ []

abbrev found : List (Event ℕ)
found = record { thread = 1; op = contains 5; answer = true } ∷ added

lacks_5 : Locked.contains 5 at_3.core ≡ false
unfolding Locked.contains Locked.bucket Locked.bucket_index home has
lacks_5 = refl

to_3 : Reach 2 [] at_3
unfolding ℕ_discrete refilled flatten
to_3 =
    later {mem = roomy} 0
      (later {mem = roomy} 1 (later {mem = roomy} 0 start refl (outside (call (add 5)))) refl
        (outside (call (contains 5))))
      refl (acquire refl lock_section)

to_5 : Reach 2 added at_5
unfolding ℕ_discrete refilled flatten
to_5 =
    later {mem = roomy} 0 (later {mem = roomy} 0 to_3 refl (inside (absent lacks_5))) refl
      (inside (push refl))

to_7 : Reach 2 added at_7
unfolding ℕ_discrete refilled flatten Locked.push Locked.bucket Locked.bucket_index home push_back
    Locked.count_up
to_7 =
    later {mem = roomy} 0 (later {mem = roomy} 0 to_5 refl (inside count_up)) refl
      (release unlock_section)

holds_5 : Locked.contains 5 at_8.core ≡ true
unfolding Locked.contains Locked.bucket Locked.bucket_index Locked.count_up Locked.push home has
    ℕ_discrete push_back
holds_5 = refl

to_10 : Reach 2 found at_10
unfolding ℕ_discrete Locked.contains Locked.bucket Locked.bucket_index Locked.count_up Locked.push
    home has push_back refilled flatten
to_10 =
    later {mem = roomy} 1
      (later {mem = roomy} 1 (later {mem = roomy} 1 to_7 refl (acquire refl lock_section)) refl
        (inside look))
      refl (release unlock_section)

linearizable_example : Allowed (λ y. false) found (contents at_10)
linearizable_example = linearizable (omega arith) (omega arith) to_10

mutual_exclusion_example : ◌≡◌ {A = ℕ} 0 0
unfolding ℕ_discrete
mutual_exclusion_example = mutual_exclusion (Reach-ReachAny to_5) 0 0 refl refl

answer_of_event_example : latest 1 found ≡ some (contains 5, true)
unfolding ℕ_discrete
answer_of_event_example = answer_of_event (Reach-ReachAny to_10) 1 (contains 5) true refl

quiet_size_example : at_10.core.set_size ≡ length (flatten at_10.core.table) % word
quiet_size_example = quiet_size (omega arith) (omega arith) to_10 refl

section_ends_example : Releasing roomy at_5 0
unfolding ℕ_discrete
section_ends_example = section_ends roomy at_5 0 refl
