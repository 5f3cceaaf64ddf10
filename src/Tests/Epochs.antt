-- ===== src/Tests/Epochs.antt =====
-- Two threads inside guards of a reclaimer; one of them retires the node at address 7.
use concurrent_hash_sets.Base.{ℕ, suc, ◌≤◌, refl, ℕ_discrete, update, [], ◌∷◌}
use concurrent_hash_sets.Epoch.{enter}
use concurrent_hash_sets.Epoch.Threads.{
  entering, inside, System, goto, initial, In, first, rest, Retired, retire, adopt, begin, announce,
  Reach, start, later,
}
use concurrent_hash_sets.Epoch.Threads.Clock.{epoch_in_guard}
use concurrent_hash_sets.Epoch.Threads.Kept.{Prompt}

abbrev joined : ℕ → System → System
joined i s = record s { members = i ∷ s.members }

abbrev announced : ℕ → System → System
announced i s = record s {
  slot = update s.slot i (enter 0 (s.slot i));
  pc = update s.pc i inside;
  entry = update s.entry i s.epoch;
  since = update s.since i [];
}

abbrev one_inside : System
one_inside = announced 0 (goto 0 (entering 0) (joined 0 initial))

abbrev two_inside : System
two_inside = announced 1 (goto 1 (entering 0) (joined 1 one_inside))

to_one : Reach Prompt one_inside
unfolding ℕ_discrete
to_one =
    later 0 (later 0 (later 0 start (adopt refl (λ n. elim n [ ]))) (begin refl first))
      (announce refl refl)

absent : In {A = ℕ} 1 (0 ∷ []) → ⊥
absent (rest n) = elim n [ ]

to_two : Reach Prompt two_inside
unfolding ℕ_discrete enter
to_two =
    later 1 (later 1 (later 1 to_one (adopt refl absent)) (begin refl first)) (announce refl refl)

abbrev handed_over : System
handed_over = retire 0 7 two_inside

abbrev seven : Retired
seven = record { owner = 0; tag = 1; node = 7 }

epoch_in_guard_example :
    (two_inside.entry 1 ≤ two_inside.epoch) × (two_inside.epoch ≤ suc (two_inside.entry 1))
unfolding ℕ_discrete
epoch_in_guard_example = epoch_in_guard 1 to_two refl
