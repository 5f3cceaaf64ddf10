-- ===== src/Striped/Laws.antt =====
-- The methods of src/HashSetStriped.h, each run alone.
use concurrent_hash_sets.Base.{
  ℕ, ◌*◌, ◌≡◌, ◌≤◌, if◌then◌else◌, refl, inl, inr, Bool, true, false, max, [], replicate,
  Bool-cases, arith,
}
use concurrent_hash_sets.Element.{Element}
use concurrent_hash_sets.Outcome.{
  Outcome, returns, throws, Allocator, then_return-state, then_return-outcome,
}
use concurrent_hash_sets.Table.Contents.{most_buckets, empty-HoldsSet, empty-member}
use concurrent_hash_sets.Table.Ends.{AddEnds, no_room, returned_new, returned_old, AddEnds-Updates}
use concurrent_hash_sets.Locked
use concurrent_hash_sets.Locked.{Locked}
use concurrent_hash_sets.Locked.Laws.{
  Changes, remove-Changes, same-Changes, push-Changes, push-capacity, remove-capacity, ResizeEnds,
  kept, enlarged, stopped, resize-ResizeEnds, ResizeEnds-AddEnds, SectionEnds, found, added,
  refused, add_section-SectionEnds,
}
use concurrent_hash_sets.Striped.{HashSetStriped, new, resize, grow, add, remove, contains}
use concurrent_hash_sets.Striped.Stripes.{IsStriped}

module _ {T : Type 0} ⦃e : Element T⦄ where
  -- A set in the table, and a whole number of buckets for each mutex.
  pub record IsValid (s : HashSetStriped T) : Type 0 where
    pub holds : Locked.Laws.IsValid s.core
    pub striped : IsStriped s

  -- A valid set again, changed at `x` at most, with the mutexes that there were.
  pub record Changed {s : HashSetStriped T} (v : IsValid s) (x : T) (present : Bool)
      (t : HashSetStriped T) : Type 0 where
    pub valid : IsValid t
    pub changes : Changes v.holds x present t.core
    pub same_mutexes : t.mutexes ≡ s.mutexes

  ResizeEnds-IsStriped :
      {mem : Allocator} (s : HashSetStriped T) {r : Locked T × Outcome (Unit {0})}
      → IsStriped s
      → s.capacity ≤ most_buckets
      → ResizeEnds mem s.core r
      → IsStriped (record s { core = r.0 })
  ResizeEnds-IsStriped s v small kept = v
  ResizeEnds-IsStriped s v small (enlarged fits) = (2 * v.0, omega (arith, v.1, small))
  ResizeEnds-IsStriped s v small (ResizeEnds.refused full) = v
  ResizeEnds-IsStriped s v small (stopped less) = v

  -- How an Add of the set ends: in one of the ways of a table set, with a whole number of buckets for
  -- each mutex and the mutexes that there were.
  pub record AddEnded (mem : Allocator) {s : HashSetStriped T} (v : IsValid s) (x : T)
      (r : HashSetStriped T × Outcome Bool) : Type 0 where
    pub ends : AddEnds mem v.holds x r.0.capacity r.0.table r.0.set_size r.1
    pub striped : IsStriped r.0
    pub same_mutexes : r.0.mutexes ≡ s.mutexes

  module _ {s : HashSetStriped T} (v : IsValid s) (x : T) where
    grow-AddEnded :
        (mem : Allocator) {c : Locked T}
        → Locked.contains x s.core ≡ false
        → c.capacity ≡ s.capacity
        → Changes v.holds x true c
        → AddEnded mem v x (grow mem (record s { core = c }))
    unfolding grow resize
    grow-AddEnded mem {c} absent same u =
        let t : HashSetStriped T = record s { core = c } in
        let striped : IsStriped t = rw same v.striped in
        elim (Bool-cases (Locked.policy c)) [
          | inl over ↦
              let r : HashSetStriped T × Outcome (Unit {0}) =
                (record s { core = (Locked.resize mem c).0 }, (Locked.resize mem c).1) in
              let ends = resize-ResizeEnds mem c in
              rw over (record {
                ends =
                    rw (then_return-state r true, then_return-outcome r true)
                      (ResizeEnds-AddEnds v.holds x absent same u ends);
                striped =
                    rw (then_return-state r true)
                      (ResizeEnds-IsStriped t striped u.holds.small ends);
                same_mutexes = rw (then_return-state r true);
              })
          | inr under ↦ rw under (record {
            ends = returned_new (unfold Locked.contains Locked.bucket in absent) u;
            striped = striped;
            same_mutexes = refl;
          })
        ]

    add_rest :
        {mem : Allocator} {r : Locked T × Outcome Bool}
        → SectionEnds mem x s.core r
        → AddEnded mem v x (elim r.1 [
          | throws c ↦ (record s { core = r.0 }, throws c)
          | returns fresh ↦
              (if fresh
                then grow mem (record s { core = r.0 })
                else (record s { core = r.0 }, returns false))
        ])
    add_rest (found q) = record {
      ends =
          returned_old (unfold Locked.contains Locked.bucket in q) (same-Changes v.holds x true q);
      striped = v.striped;
      same_mutexes = refl;
    }
    add_rest {mem} (added q f) =
        grow-AddEnded mem q (push-capacity x s.core) (push-Changes v.holds x q)
    add_rest (refused q f) = record {
      ends = no_room (unfold Locked.contains Locked.bucket in q) f refl refl refl;
      striped = v.striped;
      same_mutexes = refl;
    }

    -- Add of a valid striped set leaves a whole number of buckets for each mutex and as many
    -- mutexes as before, and ends in one of four ways: it returns whether the element was absent,
    -- and leaves a set with the element in it, the others as before and one more element if it was
    -- absent; or the element was absent and it throws, with the set changed in the same way because
    -- a larger table cannot be allocated, or with nothing changed because its own push_back gets no
    -- memory, or, because a push_back of Resize gets none, with the set changed in the same way but
    -- for the elements before it, which have been moved from.
    pub add-AddEnded : (mem : Allocator) → AddEnded mem v x (add mem x s)
    unfolding add
    add-AddEnded mem = add_rest (add_section-SectionEnds mem x s.core)

    -- An Add that returns leaves a valid set.
    pub add-IsValid :
        (mem : Allocator) {b : Bool} → (add mem x s).1 ≡ returns b → IsValid (add mem x s).0
    add-IsValid mem q =
        let a = add-AddEnded mem in
        record { holds = (AddEnds-Updates a.ends q).holds; striped = a.striped }

    -- Remove of a valid striped set leaves a valid set without the element, with the others and the
    -- mutexes as before.
    pub remove-Changed : Changed v x false (remove x s).0
    unfolding remove
    remove-Changed =
        let c = remove-Changes v.holds x in
        record {
          valid = record { holds = c.holds; striped = rw (remove-capacity x s.core) v.striped };
          changes = c;
          same_mutexes = refl;
        }

  -- The constructor makes a valid empty set with a mutex for each bucket, if its table can be
  -- allocated.
  pub new-IsValid :
      (mem : Allocator) (initial_capacity : ℕ)
      → mem.fits (max 1 initial_capacity) ≡ true
      → (s : HashSetStriped T) × (new mem initial_capacity ≡ returns s)
        × IsValid s
        × ((x : T) → contains x s ≡ false)
        × (s.mutexes ≡ s.capacity)
  unfolding new contains
  new-IsValid mem initial_capacity fits =
      let n = max 1 initial_capacity in
      (
        record {
          core = record { table = replicate n []; capacity = n; set_size = 0 };
          mutexes = n;
        },
        rw fits,
        record {
          holds = empty-HoldsSet n (omega arith) (mem.fits_small n fits);
          striped = (1, omega arith);
        },
        unfold Locked.contains in empty-member n,
        refl,
      )
