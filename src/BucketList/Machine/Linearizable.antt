-- ===== src/BucketList/Machine/Linearizable.antt =====
-- What the runs of the threads on the list of src/BucketList.h are.
use concurrent_hash_sets.Base.{
  ℕ, suc, zero, ◌+◌, ◌≤◌, ◌<◌, ◌≡◌, ◌≢◌, ◌↔◌, sym, ◌∙◌, ap, Bool, true, false, arith, ℕ_discrete,
  none,
}
use concurrent_hash_sets.Element.{Element}
use concurrent_hash_sets.MarkableReference.{Address}
use concurrent_hash_sets.History.{Op, Allowed}
use concurrent_hash_sets.BucketList.Keys.{make_sentinel_key}
use concurrent_hash_sets.BucketList.Keys.Order.{make_sentinel_key-even}
use concurrent_hash_sets.BucketList.Heap.{Heap, tail, root, matches}
use concurrent_hash_sets.BucketList.Order.{times, Ordered, matches-key, unmarked_kept}
use concurrent_hash_sets.BucketList.World.{
  sought, contents_after, Trail, here, next, Trail-from, matches-elem,
}
use concurrent_hash_sets.BucketList.Machine.{returning, placed, System, Reach}
use concurrent_hash_sets.BucketList.Machine.Threads.{Answered, Knows}
use concurrent_hash_sets.BucketList.Machine.Invariant.{Inv}
use concurrent_hash_sets.BucketList.Machine.Reachable.{Reach-Inv}

module _ {T : Type 0} ⦃e : Element T⦄ where
  -- An unmarked node of `x` can be reached from the root.
  abbrev pub Present : Heap T → T → Type 0
  Present h x =
      (a : Address) × Trail h root a × (h.marked a ≡ false) × (matches a (sought x) h ≡ true)

module _ {T : Type 0} {on : Address → Bool} {rank : Address → ℕ} {h : Heap T}
    (o : Ordered on rank h) where
  -- A reference skips no unmarked node.
  no_skip :
      (a b : Address)
      → on a ≡ true
      → a ≢ tail
      → on b ≡ true
      → h.marked b ≡ false
      → rank a < rank b
      → rank (h.ref a) ≤ rank b
  no_skip a b q nt r live l = ground (arith, o.gap a b, o.gone b)

  reaches :
      (n : ℕ) (a b : Address)
      → on a ≡ true
      → on b ≡ true
      → h.marked b ≡ false
      → rank a ≤ rank b
      → rank b ≤ rank a + n
      → Trail h a b
  reaches zero a b q r live l m = rw (o.distinct a b q r (omega arith)) here
  reaches (suc n) a b q r live l m = elim (ℕ_discrete (rank a) (rank b)) [
    | yes z ↦ rw (o.distinct a b q r z) here
    | no z ↦
        let nt : a ≢ tail = λ y. omega (arith, ap rank y, o.ends b r) in
        Trail-from a nt b (
          reaches n (h.ref a) b (o.stays a q nt) r live (no_skip a b q nt r live (omega arith))
            (omega (arith, o.forward a q nt)))
  ]

  leads : (a b : Address) → on a ≡ true → Trail h a b → (on b ≡ true) × (rank a ≤ rank b)
  leads a b q here = (q, omega arith)
  leads a _ q (next {b} r nt) =
      let (on_b, l) = leads a b q r in (o.stays b on_b nt, omega (arith, o.forward b on_b nt))

  kept_along :
      (a b : Address) → on a ≡ true → times a h.retired ≡ 0 → Trail h a b → times b h.retired ≡ 0
  kept_along a b q z here = z
  kept_along a _ q z (next {b} r nt) =
      let (on_b, l) = leads a b q r in o.closed b on_b nt (kept_along a b q z r)

module _ {T : Type 0} ⦃e : Element T⦄ {s : System T} (inv : Inv s) where
  from_root : (a : Address) → inv.on a ≡ true → s.heap.marked a ≡ false → Trail s.heap root a
  from_root a q live =
      let o = inv.order in
      reaches o (inv.rank a) root a o.root_on q live (o.starts a q) (omega arith)

  linearizable_at :
      Allowed (λ y. false) s.events (contents_after s.events)
      × ((x : T) → (contents_after s.events x ≡ true) ↔ Present s.heap x)
  linearizable_at = (
    inv.agrees.legal,
    λ x. (
      λ q.
          let (a, on_a, live, same) = inv.agrees.present x q in
          (a, from_root a on_a live, live, same),
      λ p.
          let (a, path, live, same) = p in
          inv.agrees.absent x a (leads inv.order root a inv.order.root_on path).0 live same,
    ),
  )

module _ {T : Type 0} ⦃e : Element T⦄ {blank : T} {s : System T} (reach : Reach blank s) where
  inv : Inv s
  inv = Reach-Inv reach

  -- In every state that any number of threads can reach by calls of Add, Remove, Contains and
  -- SentinelFor on sentinels of one list, the successful calls of Add and Remove, in the order of
  -- the compare-and-exchanges that take effect, are a history of the abstract set from empty, and
  -- an element is in that set exactly if an unmarked node that matches it can be reached from the
  -- root.
  pub list_linearizable :
      Allowed (λ y. false) s.events (contents_after s.events)
      × ((x : T) → (contents_after s.events x ≡ true) ↔ Present s.heap x)
  list_linearizable = linearizable_at inv

  -- In every reachable state of the list, a call that is about to return true from Add or Remove
  -- has had that effect since it began, and any other answer of Add, Remove or Contains was right
  -- for the abstract set at a moment since the call began.
  pub list_answers :
      (i : ℕ) (op : Op T) (b : Bool)
      → s.pc i ≡ returning op b
      → Answered i (s.began i) op b s.events
  unfolding Knows
  list_answers i op b q = rw q at (inv.knows i)

  -- In every reachable state of the list, a node has been handed to the reclaimer at most once.
  pub retired_at_most_once : (a : Address) → times a s.heap.retired ≤ 1
  retired_at_most_once = inv.order.once

  -- In every reachable state of the list, a node that can be reached from a sentinel that a thread
  -- has been given has not been handed to the reclaimer.
  pub reachable_not_retired :
      (head a : Address) → s.given head ≡ true → Trail s.heap head a → times a s.heap.retired ≡ 0
  reachable_not_retired head a q path =
      let o = inv.order in
      let (on_head, even) = inv.sentinels head q in
      kept_along o head a on_head
        (unmarked_kept o (record { key = 0; elem = none }) head (o.sentinel head on_head even)) path

  -- In every reachable state of the list, of two nodes that can be reached from a given sentinel,
  -- one after the other, the later one, if it is unmarked, does not have the smaller key.
  pub keys_ascend :
      (head a b : Address)
      → s.given head ≡ true
      → Trail s.heap head a
      → Trail s.heap a b
      → s.heap.marked b ≡ false
      → s.heap.key a ≤ s.heap.key b
  keys_ascend head a b q path further live =
      let o = inv.order in
      let (on_a, la) = leads o head a (inv.sentinels head q).0 path in
      let (on_b, lb) = leads o a b on_a further in
      elim (ℕ_discrete (inv.rank a) (inv.rank b)) [
        | yes z ↦ rw (o.distinct a b on_a on_b z) (omega arith)
        | no z ↦ o.sorted a b on_a on_b (omega arith) live
      ]

  -- In every reachable state of the list, two unmarked nodes that can be reached from the root and
  -- match the same element are one node.
  pub no_duplicates :
      (x : T) (a b : Address)
      → Trail s.heap root a
      → Trail s.heap root b
      → s.heap.marked a ≡ false
      → s.heap.marked b ≡ false
      → matches a (sought x) s.heap ≡ true
      → matches b (sought x) s.heap ≡ true
      → a ≡ b
  no_duplicates x a b pa pb la lb ma mb =
      let o = inv.order in
      let on_a = (leads o root a o.root_on pa).0 in
      let on_b = (leads o root b o.root_on pb).0 in
      let keys : s.heap.key a ≡ s.heap.key b =
        matches-key a (sought x) s.heap ma ∙ sym (matches-key b (sought x) s.heap mb) in
      let elems : s.heap.elem a ≡ s.heap.elem b =
        matches-elem a x s.heap ma ∙ sym (matches-elem b x s.heap mb) in
      ground (
        arith,
        o.distinct a b on_a on_b,
        o.cleared a b on_a on_b,
        o.cleared b a on_b on_a,
        keys,
        elems,
        sym elems,
        o.gone a,
        o.gone b,
      )

  -- In every reachable state of the list, the node that SentinelFor is about to return can be
  -- reached from the root, is unmarked and has the key of the sentinel asked for.
  pub sentinel_for_lem :
      (i index : ℕ) (a : Address)
      → s.pc i ≡ placed index a
      → Trail s.heap root a × (s.heap.marked a ≡ false) × (s.heap.key a ≡ make_sentinel_key index)
  unfolding Knows
  sentinel_for_lem i index a q =
      let (on_a, key) = rw q at (inv.knows i) in
      let live = inv.order.sentinel a on_a (rw key (make_sentinel_key-even index)) in
      (from_root inv a on_a live, live, key)
