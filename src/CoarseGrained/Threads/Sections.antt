-- ===== src/CoarseGrained/Threads/Sections.antt =====
-- What a step inside a critical section does to the set that the section will leave behind.
use concurrent_hash_sets.Base.{ℕ, ◌≤◌, ◌<◌, ◌≡◌, refl, true, false, arith}
use concurrent_hash_sets.Element.{Element}
use concurrent_hash_sets.Outcome.{Allocator}
use concurrent_hash_sets.Table.{refilled, rehash}
use concurrent_hash_sets.History.{Label, silent, Explains, Contents}
use concurrent_hash_sets.Table.Contents.{
  most_buckets, same-Updates, rehash-Updates, rehash-HoldsSet,
}
use concurrent_hash_sets.Locked
use concurrent_hash_sets.Locked.{Locked}
use concurrent_hash_sets.Locked.Laws.{IsValid, push-Changes, drop-Changes}
use concurrent_hash_sets.CoarseGrained.Threads.{
  Pc, adding, removing, built, pushed, dropped, rehashed, Inside, found, absent, no_room, push,
  count_up, missing, present, drop, count_down, look, already, no_memory, build, stopped,
  replace_table, store_capacity,
}

module _ {T : Type 0} ⦃e : Element T⦄ where
  -- the state once the thread at `p` has made the update that it owes
  abbrev pub settle : Pc T → Locked T → Locked T
  settle (pushed x) c = Locked.count_up c
  settle (dropped x) c = Locked.count_down c
  settle (rehashed x n) c = record c { capacity = n }
  settle p c = c

  abbrev pub view : Locked T → Contents T
  view c y = Locked.contains y c

  -- The set stays valid, and the contents change as the label says.
  pub record Good (l : Label T) (before after : Locked T) : Type 0 where
    pub valid : IsValid after
    pub explains : Explains l (view before) (view after)

  pub same-Good : {c : Locked T} → IsValid c → Good silent c c
  same-Good v = record { valid = v; explains = λ y. refl }

  rehash-Good :
      {c : Locked T} (n : ℕ)
      → 0 < n
      → n ≤ most_buckets
      → IsValid c
      → Good silent c (record c { table = rehash n c.table; capacity = n })
  unfolding Locked.contains
  rehash-Good {c} n pos small v =
      let moved =
        λ (y : T). rehash-Updates v y n (same-Updates v y (Locked.contains y c) refl) pos small in
      record { valid = rehash-HoldsSet n v pos small; explains = λ y. (moved y).self }

  -- what the locals of a thread say about the shared members
  abbrev pub Knows : Pc T → Locked T → Type 0
  Knows (adding x) c = Locked.contains x c ≡ false
  Knows (removing x) c = Locked.contains x c ≡ true
  Knows (built x n fresh) c = (fresh ≡ rehash n c.table) × (0 < n) × (n ≤ most_buckets)
  Knows _ c = Unit

  pub Inside-Good :
      {mem : Allocator} {c c' : Locked T} {p p' : Pc T} {l : Label T}
      → refilled mem c.table ≡ true
      → Inside mem c p l c' p'
      → IsValid (settle p c)
      → Knows p c
      → Good l (settle p c) (settle p' c')
  unfolding Locked.contains
  Inside-Good fills (found h) v k = record { valid = v; explains = (rw h, h, λ y q. refl) }
  Inside-Good fills (absent h) v k = same-Good v
  Inside-Good fills (no_room f) v k = same-Good v
  Inside-Good fills (push {x} f) v k =
      let u = push-Changes v x k in record { valid = u.holds; explains = (rw k, u.self, u.others) }
  Inside-Good fills count_up v k = same-Good v
  Inside-Good fills (missing h) v k = record { valid = v; explains = (rw h, h, λ y q. refl) }
  Inside-Good fills (present h) v k = same-Good v
  Inside-Good fills (drop {x}) v k =
      let u = drop-Changes v x k in record { valid = u.holds; explains = (rw k, u.self, u.others) }
  Inside-Good fills count_down v k = same-Good v
  Inside-Good fills look v k = record { valid = v; explains = (refl, λ y. refl) }
  Inside-Good fills (already h) v k = same-Good v
  Inside-Good fills (no_memory h f) v k = same-Good v
  Inside-Good fills (build h f all) v k = same-Good v
  Inside-Good fills (stopped h f some_left) v k = cc
  Inside-Good fills (replace_table {n}) v k = rw k.0 (rehash-Good n k.1 k.2 v)
  Inside-Good fills store_capacity v k = same-Good v

  -- What the thread learns by its step.
  pub Inside-Knows :
      {mem : Allocator} {c c' : Locked T} {p p' : Pc T} {l : Label T}
      → refilled mem c.table ≡ true
      → Inside mem c p l c' p'
      → IsValid (settle p c)
      → Knows p' c'
  Inside-Knows fills (found h) v = tt
  Inside-Knows fills (absent h) v = h
  Inside-Knows fills (no_room f) v = tt
  Inside-Knows fills (push f) v = tt
  Inside-Knows fills count_up v = tt
  Inside-Knows fills (missing h) v = tt
  Inside-Knows fills (present h) v = h
  Inside-Knows fills drop v = tt
  Inside-Knows fills count_down v = tt
  Inside-Knows fills look v = tt
  Inside-Knows fills (already h) v = tt
  Inside-Knows fills (no_memory h f) v = tt
  Inside-Knows fills (stopped h f some_left) v = cc
  Inside-Knows {mem} fills (build h f all) v =
      (refl, omega (arith, v.is_placed.roomy, v.small), mem.fits_small _ f)
  Inside-Knows fills replace_table v = tt
  Inside-Knows fills store_capacity v = tt
