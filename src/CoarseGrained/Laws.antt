-- ===== src/CoarseGrained/Laws.antt =====
-- The methods of src/HashSetCoarseGrained.h, each run alone.
use concurrent_hash_sets.Base.{
  ℕ, Bool, refl, if◌then◌else◌, ◌≡◌, inl, inr, true, false, max, [], replicate, Bool-cases, arith,
}
use concurrent_hash_sets.Element.{Element}
use concurrent_hash_sets.Outcome.{
  Outcome, returns, throws, Allocator, then_return-state, then_return-outcome,
}
use concurrent_hash_sets.Table.Contents.{empty-HoldsSet, empty-member}
use concurrent_hash_sets.Table.Ends.{AddEnds, no_room, returned_new, returned_old}
use concurrent_hash_sets.Locked
use concurrent_hash_sets.Locked.Laws.{
  IsValid, Changes, same-Changes, push-Changes, push-capacity, resize-ResizeEnds,
  ResizeEnds-AddEnds, SectionEnds, found, added, refused, add_section-SectionEnds,
}
use concurrent_hash_sets.CoarseGrained.{HashSetCoarseGrained, new, grow, add}

module _ {T : Type 0} ⦃e : Element T⦄ where
  module _ {s : HashSetCoarseGrained T} (v : IsValid s) (x : T) (mem : Allocator) where
    -- what `Add` has made of the set, and how it ends
    abbrev pub Ended : HashSetCoarseGrained T × Outcome Bool → Type 0
    Ended r = AddEnds mem v x r.0.capacity r.0.table r.0.set_size r.1

    grow-AddEnds :
        {t : HashSetCoarseGrained T}
        → Locked.contains x s ≡ false
        → t.capacity ≡ s.capacity
        → Changes v x true t
        → Ended (grow mem t)
    unfolding grow
    grow-AddEnds {t} absent same u = elim (Bool-cases (Locked.policy t)) [
      | inl over ↦
          let r = Locked.resize mem t in
          rw (over, then_return-state r true, then_return-outcome r true)
            (ResizeEnds-AddEnds v x absent same u (resize-ResizeEnds mem t))
      | inr under ↦ rw under (returned_new (unfold Locked.contains Locked.bucket in absent) u)
    ]

    add_rest :
        {r : HashSetCoarseGrained T × Outcome Bool}
        → SectionEnds mem x s r
        → Ended (elim r.1 [
          | throws c ↦ (r.0, throws c)
          | returns fresh ↦ (if fresh then grow mem r.0 else (r.0, returns false))
        ])
    add_rest (found q) =
        returned_old (unfold Locked.contains Locked.bucket in q) (same-Changes v x true q)
    add_rest (added q f) = grow-AddEnds q (push-capacity x s) (push-Changes v x q)
    add_rest (refused q f) = no_room (unfold Locked.contains Locked.bucket in q) f refl refl refl

    -- `Add` ends in one of the ways of a table set.
    pub add-Ended : Ended (add mem x s)
    unfolding add
    add-Ended = add_rest (add_section-SectionEnds mem x s)

  -- The constructor makes a valid empty set, if its table can be allocated.
  pub new-IsValid :
      (mem : Allocator) (initial_capacity : ℕ)
      → mem.fits (max 1 initial_capacity) ≡ true
      → (s : HashSetCoarseGrained T) × (new mem initial_capacity ≡ returns s)
        × IsValid s
        × ((x : T) → Locked.contains x s ≡ false)
  unfolding new
  new-IsValid mem initial_capacity fits =
      let n = max 1 initial_capacity in
      (
        record { table = replicate n []; capacity = n; set_size = 0 },
        rw fits,
        empty-HoldsSet n (omega arith) (mem.fits_small n fits),
        unfold Locked.contains in empty-member n,
      )
