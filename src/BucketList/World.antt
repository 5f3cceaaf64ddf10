-- ===== src/BucketList/World.antt =====
-- The memory of src/BucketList.h with the order of its nodes and the calls that changed the set:
-- what may happen to it while a thread waits.
pub mod Ahead
pub mod Changes
use mathlib.Core.Path.{fun_ext}
use concurrent_hash_sets.Base.{
  ℕ, zero, suc, ◌+◌, ◌%◌, ◌≤◌, ◌<◌, ◌≡◌, ◌≢◌, ◌⊎◌, inl, inr, refl, sym, ◌∙◌, ap, ite, Bool, true,
  false, not, Option, none, some, List, [], ◌∷◌, length, arith, dec_lt, ℕ_discrete, Bool-cases,
}
use concurrent_hash_sets.Element.{Element}
use concurrent_hash_sets.MarkableReference.{Address}
use concurrent_hash_sets.History.{Op, add, remove, contains, Event, Contents, Allowed}
use concurrent_hash_sets.BucketList.Keys.{make_ordinary_key}
use concurrent_hash_sets.BucketList.Heap.{Heap, tail, Target, matches}
use concurrent_hash_sets.BucketList.Order.{
  times, Ordered, matches-same, matches-key, equal_elem, Clear,
}

module _ {T : Type 0} ⦃e : Element T⦄ where
  -- the set once a call has had its effect
  abbrev pub effect : Op T → Contents T → Contents T
  effect (add x) c y = ite (e.discrete x y) true (c y)
  effect (remove x) c y = ite (e.discrete x y) false (c y)
  effect (contains x) c y = c y

  -- what the set contains after some calls, the latest first
  unfoldable pub contents_after : List (Event T) → Contents T
  contents_after [] y = false
  contents_after (a ∷ h) y = effect a.op (contents_after h) y

  -- At a moment since the first `k` effects, the set contained `x`, or did not.
  pub data Moment (k : ℕ) (x : T) (b : Bool) : List (Event T) → Type 0 where
    now : {h : List (Event T)} → k ≤ length h → contents_after h x ≡ b → Moment k x b h
    before : {h : List (Event T)} (a : Event T) → Moment k x b h → Moment k x b (a ∷ h)

-- Since the first `k` effects, thread `i` had the effect of `op`.
pub data Effected {T : Type 0} (i k : ℕ) (op : Op T) : List (Event T) → Type 0 where
  now :
      {h : List (Event T)}
      → k ≤ length h
      → Effected i k op (record { thread = i; op = op; answer = true } ∷ h)
  before : {h : List (Event T)} (a : Event T) → Effected i k op h → Effected i k op (a ∷ h)

-- Nodes that are linked in, in their order, and the effects so far.
pub record World (T : Type 0) : Type 0 where
  pub heap : Heap T
  pub on : Address → Bool
  pub rank : Address → ℕ
  pub events : List (Event T)

-- the target of an element
abbrev pub sought : {T : Type 0} ⦃e : Element T⦄ → T → Target T
sought x = record { key = make_ordinary_key x; elem = some x }

-- The nodes that following `next` from `a` comes to.
pub data Trail {T : Type 0} (h : Heap T) (a : Address) : Address → Type 0 where
  here : Trail h a a
  next : {b : Address} → Trail h a b → b ≢ tail → Trail h a (h.ref b)

pub Trail-from :
    {T : Type 0} {h : Heap T} (a : Address)
    → a ≢ tail
    → (y : Address) → Trail h (h.ref a) y
    → Trail h a y
Trail-from a nt y here = next here nt
Trail-from a nt y (next r n) = next (Trail-from a nt _ r) n

module _ {T : Type 0} ⦃e : Element T⦄ where
  -- The set is that of the unmarked nodes.
  pub record Agrees (w : World T) : Type 0 where
    pub present :
        (x : T)
        → contents_after w.events x ≡ true
        → (a : Address) × (w.on a ≡ true)
          × (w.heap.marked a ≡ false)
          × (matches a (sought x) w.heap ≡ true)
    pub absent :
        (x : T) (a : Address)
        → w.on a ≡ true
        → w.heap.marked a ≡ false
        → matches a (sought x) w.heap ≡ true
        → contents_after w.events x ≡ true
    pub legal : Allowed (λ y. false) w.events (contents_after w.events)

  -- What a step may do to the world, the thread's own node `mine` apart.
  pub record Later (mine : Address) (w v : World T) : Type 0 where
    pub on_kept : (a : Address) → w.on a ≡ true → v.on a ≡ true
    pub rank_kept :
        (a b : Address) → w.on a ≡ true → w.on b ≡ true → w.rank a < w.rank b → v.rank a < v.rank b
    pub made : w.heap.allocated ≤ v.heap.allocated
    pub same_key : (a : Address) → a < w.heap.allocated → v.heap.key a ≡ w.heap.key a
    pub same_elem : (a : Address) → a < w.heap.allocated → v.heap.elem a ≡ w.heap.elem a
    pub mark_kept :
        (a : Address)
        → w.on a ≡ true
        → w.heap.marked a ≡ true
        → (v.heap.marked a ≡ true) × (v.heap.ref a ≡ w.heap.ref a)
    pub retired_kept : (a : Address) → 0 < times a w.heap.retired → 0 < times a v.heap.retired
    -- a node comes behind all unmarked ones that are not past its key
    pub added :
        (n a : Address)
        → w.on n ≡ false
        → v.on n ≡ true
        → w.on a ≡ true
        → v.heap.marked a ≡ false
        → v.heap.key a ≤ v.heap.key n
        → v.rank a < v.rank n
    -- the element of a node that was marked is absent
    pub lost :
        (a : Address)
        → w.on a ≡ true
        → w.heap.marked a ≡ false
        → v.heap.marked a ≡ true
        → contents_after v.events (v.heap.elem a) ≡ false
    pub grown : (v.events ≡ w.events) ⊎ ((a : Event T) × (v.events ≡ a ∷ w.events))
    -- a reference is kept, skips a node, or has a new one put before it
    pub edges :
        (a : Address)
        → w.on a ≡ true
        → a ≢ tail
        → (v.heap.ref a ≡ w.heap.ref a)
          ⊎ (((w.heap.ref a ≢ tail) × (v.heap.ref a ≡ w.heap.ref (w.heap.ref a)))
              ⊎ ((w.on (v.heap.ref a) ≡ false) × (v.heap.ref (v.heap.ref a) ≡ w.heap.ref a)))
    pub others :
        (m : Address)
        → m ≢ mine
        → w.on m ≡ false
        → m < w.heap.allocated
        → (v.on m ≡ false) × (v.heap.ref m ≡ w.heap.ref m) × (v.heap.marked m ≡ w.heap.marked m)

  pub matches-elem :
      (a : Address) (x : T) (h : Heap T) → matches a (sought x) h ≡ true → h.elem a ≡ x
  unfolding matches
  matches-elem a x h q = equal_elem (h.elem a) x (ground arith)

  Moment-same :
      {k : ℕ} {x : T} {b : Bool} {h l : List (Event T)} → l ≡ h → Moment k x b h → Moment k x b l
  Moment-same q m = rw q m

  Effected-same :
      {i k : ℕ} {op : Op T} {h l : List (Event T)} → l ≡ h → Effected i k op h → Effected i k op l
  Effected-same q m = rw q m

  module _ {mine : Address} {w v : World T} (l : Later mine w v) where
    pub Moment-kept : {k : ℕ} {x : T} {b : Bool} → Moment k x b w.events → Moment k x b v.events
    Moment-kept m = elim l.grown [
      | inl q ↦ Moment-same q m
      | inr (a, q) ↦ Moment-same q (before a m)
    ]

    pub Effected-kept : {i k : ℕ} {op : Op T} → Effected i k op w.events → Effected i k op v.events
    Effected-kept m = elim l.grown [
      | inl q ↦ Effected-same q m
      | inr (a, q) ↦ Effected-same q (before a m)
    ]

    pub length-grown : (k : ℕ) → k ≤ length w.events → k ≤ length v.events
    length-grown k h = elim l.grown [ inl q ↦ rw q h | inr (a, q) ↦ rw q (omega arith) ]

  module _ {mine : Address} {w v : World T} (o : Ordered w.on w.rank w.heap)
      (l : Later mine w v) where
    pub matches-kept :
        (a : Address) (t : Target T) → w.on a ≡ true → matches a t v.heap ≡ matches a t w.heap
    matches-kept a t q =
        matches-same a a t v.heap w.heap (l.same_key a (o.fresh a q)) (l.same_elem a (o.fresh a q))

    pub unmarked_before :
        (a : Address) → w.on a ≡ true → v.heap.marked a ≡ false → w.heap.marked a ≡ false
    unmarked_before a q m = ground (arith, l.mark_kept a)

    pub rank_before :
        (a b : Address) → w.on a ≡ true → w.on b ≡ true → v.rank a < v.rank b → w.rank a < w.rank b
    rank_before a b qa qb r = ground (arith, l.rank_kept b a, o.distinct a b)

    pub Clear-kept :
        (t : Target T) (a : Address)
        → w.on a ≡ true
        → Clear w.on w.rank w.heap t a
        → Clear v.on v.rank v.heap t a
    Clear-kept t a qa c m k b qb z r = elim (Bool-cases (w.on b)) [
      | inl old ↦
          matches-kept b t old
          ∙ c (unmarked_before a qa m) (omega (arith, l.same_key a (o.fresh a qa), k)) b old
              (ground (arith, l.retired_kept b)) (rank_before b a old qa r)
      | inr new ↦ elim (Bool-cases (matches b t v.heap)) [
        | inl y ↦
            absurd
              (omega (arith, l.added b a new qb qa m (omega (arith, matches-key b t v.heap y)), r))
        | inr y ↦ y
      ]
    ]
