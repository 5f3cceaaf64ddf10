-- ===== src/BucketList/Order.antt =====
-- The order of the nodes that have been linked in, those that have been unlinked included: what
-- every step of src/BucketList.h keeps of it.
pub mod Insert
pub mod Unlink
use concurrent_hash_sets.Base.{
  ℕ, zero, suc, ◌+◌, ◌%◌, ◌≤◌, ◌<◌, ◌≡◌, ◌≢◌, refl, sym, ◌∙◌, ap, inl, inr, ite, if_pos, Bool, true,
  false, not, ◌&&◌, ◌==◌, ==_iff, if◌then◌else◌, Option, none, some, List, [], ◌∷◌, update,
  Bool-cases, arith, tests, dec_lt, ℕ_discrete,
}
use concurrent_hash_sets.Element.{Element, equal}
use concurrent_hash_sets.MarkableReference.{Address}
use concurrent_hash_sets.BucketList.Keys.{tail_key}
use concurrent_hash_sets.BucketList.Heap.{
  Heap, null, tail, root, Target, store_next, retire, matches, at_or_past, same_elem,
}

-- how often a list holds an address
unfoldable pub times : Address → List Address → ℕ
times a [] = 0
times a (b ∷ bs) = ite (ℕ_discrete b a) (suc (times a bs)) (times a bs)

-- `on` tells which addresses have been linked in; `rank` orders them.
pub record Ordered {T : Type 0} (on : Address → Bool) (rank : Address → ℕ) (h : Heap T)
    : Type 0 where
  pub distinct : (a b : Address) → on a ≡ true → on b ≡ true → rank a ≡ rank b → a ≡ b
  pub stays : (a : Address) → on a ≡ true → a ≢ tail → on (h.ref a) ≡ true
  pub forward : (a : Address) → on a ≡ true → a ≢ tail → rank a < rank (h.ref a)
  -- a reference skips only what is retired
  pub gap :
      (a b : Address)
      → on a ≡ true
      → a ≢ tail
      → on b ≡ true
      → rank a < rank b
      → rank b < rank (h.ref a)
      → 0 < times b h.retired
  pub once : (a : Address) → times a h.retired ≤ 1
  pub gone : (a : Address) → 0 < times a h.retired → (h.marked a ≡ true) × (on a ≡ true)
  -- what is not retired does not refer to what is
  pub closed :
      (a : Address) → on a ≡ true → a ≢ tail → times a h.retired ≡ 0 → times (h.ref a) h.retired ≡ 0
  pub sorted :
      (a b : Address)
      → on a ≡ true
      → on b ≡ true
      → rank a < rank b
      → h.marked b ≡ false
      → h.key a ≤ h.key b
  -- another node of the same element before an unmarked one is retired
  pub cleared :
      (a b : Address)
      → on a ≡ true
      → on b ≡ true
      → rank a < rank b
      → h.marked b ≡ false
      → h.key a ≡ h.key b
      → h.elem a ≡ h.elem b
      → 0 < times a h.retired
  pub fresh : (a : Address) → on a ≡ true → a < h.allocated
  pub not_null : on null ≡ false
  pub tail_on : on tail ≡ true
  pub root_on : on root ≡ true
  pub starts : (a : Address) → on a ≡ true → rank root ≤ rank a
  pub ends : (a : Address) → on a ≡ true → rank a ≤ rank tail
  pub tail_last : h.key tail ≡ tail_key
  pub tail_unmarked : h.marked tail ≡ false
  -- the keys of the sentinels are even
  pub sentinel : (a : Address) → on a ≡ true → h.key a % 2 ≡ 0 → h.marked a ≡ false

module _ {T : Type 0} ⦃e : Element T⦄ where
  pub matches-key :
      (a : Address) (t : Target T) (h : Heap T) → matches a t h ≡ true → h.key a ≡ t.key
  unfolding matches
  matches-key a t h q = ground arith

  pub matches-same :
      (a b : Address) (t : Target T) (h k : Heap T)
      → h.key a ≡ k.key b
      → h.elem a ≡ k.elem b
      → matches a t h ≡ matches b t k
  unfolding matches
  matches-same a b t h k p q = rw (p, q) refl

  pub equal_elem : (x y : T) → equal x y ≡ true → x ≡ y
  equal_elem x y q = ground arith

  pub equal_self : (x : T) → equal x x ≡ true
  equal_self x = if_pos (e.discrete x x) refl true false

  pub not_past :
      (a : Address) (t : Target T) (h : Heap T)
      → at_or_past a t h ≡ false
      → (h.key a ≤ t.key) × (matches a t h ≡ false)
  unfolding at_or_past
  not_past a t h q = ground (arith, matches a t h)

  pub past :
      (a : Address) (t : Target T) (h : Heap T)
      → at_or_past a t h ≡ true
      → matches a t h ≡ false
      → t.key < h.key a
  unfolding at_or_past
  past a t h q r = ground arith

  -- If `a` is neither marked nor past the key, no node before it matches that is not retired.
  abbrev pub Clear : (Address → Bool) → (Address → ℕ) → Heap T → Target T → Address → Type 0
  Clear on rank h t a =
      h.marked a ≡ false
      → h.key a ≤ t.key
      → (b : Address) → on b ≡ true
      → times b h.retired ≡ 0
      → rank b < rank a
      → matches b t h ≡ false

  module _ {on : Address → Bool} {rank : Address → ℕ} {h : Heap T} (o : Ordered on rank h)
      (t : Target T) where
    pub unmarked_kept : (a : Address) → h.marked a ≡ false → times a h.retired ≡ 0
    unmarked_kept a q = ground (arith, o.gone a)

    -- `pred` is linked in, unmarked, and before what is looked for.
    module _ (pred : Address) (p : on pred ≡ true) (nt : pred ≢ tail) (live : h.marked pred ≡ false)
        (low : h.key pred ≤ t.key) (differs : matches pred t h ≡ false)
        (clear : Clear on rank h t pred) where
      pub before_next :
          (b : Address)
          → on b ≡ true
          → times b h.retired ≡ 0
          → rank b < rank (h.ref pred)
          → matches b t h ≡ false
      before_next b on_b kept l = elim (dec_lt (rank b) (rank pred)) [
        | yes q ↦ clear live low b on_b kept q
        | no q ↦ elim (ℕ_discrete (rank b) (rank pred)) [
          | yes r ↦ rw (o.distinct b pred on_b p r) differs
          | no r ↦ absurd (omega (arith, o.gap pred b p nt on_b (omega arith) l))
        ]
      ]

      -- `curr` was just loaded from `pred->next`.
      pub arrive : Clear on rank h t (h.ref pred)
      arrive q r = before_next

      pub nothing_matches :
          t.key < h.key (h.ref pred)
          → (b : Address) → on b ≡ true
          → h.marked b ≡ false
          → matches b t h ≡ false
      nothing_matches above b on_b live_b = elim (dec_lt (rank b) (rank (h.ref pred))) [
        | yes q ↦ before_next b on_b (unmarked_kept b live_b) q
        | no q ↦
            let at_least : h.key (h.ref pred) ≤ h.key b =
              elim (ℕ_discrete (rank (h.ref pred)) (rank b)) [
                | yes r ↦
                    let same = o.distinct (h.ref pred) b (o.stays pred p nt) on_b r in
                    rw same (omega arith)
                | no r ↦ o.sorted (h.ref pred) b (o.stays pred p nt) on_b (omega arith) live_b
              ] in
            elim (Bool-cases (matches b t h)) [
              | inl m ↦ absurd (omega (arith, matches-key b t h m))
              | inr m ↦ m
            ]
      ]
