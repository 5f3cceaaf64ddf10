-- ===== src/BucketList/World/Ahead.antt =====
-- What `Contains` of src/BucketList.h knows of the nodes ahead of it while other threads work.
use concurrent_hash_sets.Base.{◌<◌, ◌≡◌, ◌⊎◌, inl, inr, ◌∙◌, true, false, arith, Bool-cases}
use concurrent_hash_sets.Element.{Element}
use concurrent_hash_sets.MarkableReference.{Address}
use concurrent_hash_sets.BucketList.Heap.{matches}
use concurrent_hash_sets.BucketList.Order.{Ordered, matches-key}
use concurrent_hash_sets.BucketList.World.{
  World, Later, Trail, here, next, sought, contents_after, matches-kept, rank_before, matches-elem,
}

module _ {T : Type 0} ⦃e : Element T⦄ where
  -- An unmarked node of `x` is ahead, and is the first of `x` on the way.
  pub record Ahead (w : World T) (x : T) (curr : Address) : Type 0 where
    pub node : Address
    pub linked_in : w.on node ≡ true
    pub unmarked : w.heap.marked node ≡ false
    pub same : matches node (sought x) w.heap ≡ true
    pub behind : w.rank curr < w.rank node
    pub first :
        (y : Address)
        → Trail w.heap curr y
        → w.rank y < w.rank node
        → matches y (sought x) w.heap ≡ false

  module _ {mine : Address} {w v : World T} (o : Ordered w.on w.rank w.heap)
      (p : Ordered v.on v.rank v.heap) (l : Later mine w v) where
    -- What was reached before, or is new and refers to that.
    Reached : Address → Address → Type 0
    Reached curr y =
        ((w.on y ≡ true) × Trail w.heap curr y)
        ⊎ ((w.on y ≡ false)
            × (v.on y ≡ true)
            × (w.on (v.heap.ref y) ≡ true)
            × Trail w.heap curr (v.heap.ref y))

    Trail-Reached :
        (curr : Address) → w.on curr ≡ true → (y : Address) → Trail v.heap curr y → Reached curr y
    unfolding Reached
    Trail-Reached curr q y here = inl (q, here)
    Trail-Reached curr q y (next {b} r nt) = elim (Trail-Reached curr q b r) [
      | inl (on_b, old) ↦
          let on_next = o.stays b on_b nt in
          elim (l.edges b on_b nt) [
            | inl same ↦ rw same (inl (on_next, next old nt))
            | inr (inl (inner, skip)) ↦
                rw skip (inl (o.stays (w.heap.ref b) on_next inner, next (next old nt) inner))
            | inr (inr (new, back)) ↦
                inr (new, p.stays b (l.on_kept b on_b) nt, rw back on_next, rw back (next old nt))
          ]
      | inr (new, on_b, on_next, old) ↦ inl (on_next, old)
    ]

    pub Ahead-kept :
        (x : T) (curr : Address)
        → w.on curr ≡ true
        → Ahead w x curr
        → Ahead v x curr ⊎ (contents_after v.events x ≡ false)
    unfolding Reached
    Ahead-kept x curr q a = elim (Bool-cases (v.heap.marked a.node)) [
      | inl m ↦
          let is_x : v.heap.elem a.node ≡ x =
            l.same_elem a.node (o.fresh a.node a.linked_in) ∙ matches-elem a.node x w.heap a.same in
          inr (rw is_x at (l.lost a.node a.linked_in a.unmarked m))
      | inr m ↦
          let same = matches-kept o l a.node (sought x) a.linked_in ∙ a.same in
          inl record {
            node = a.node;
            linked_in = l.on_kept a.node a.linked_in;
            unmarked = m;
            same = same;
            behind = l.rank_kept curr a.node q a.linked_in a.behind;
            first = λ y r s. elim (Trail-Reached curr q y r) [
              | inl (on_y, old) ↦
                  matches-kept o l y (sought x) on_y
                  ∙ a.first y old (rank_before o l y a.node on_y a.linked_in s)
              | inr (new, on_y, on_next, old) ↦ elim (Bool-cases (matches y (sought x) v.heap)) [
                | inl z ↦ absurd (
                    omega (
                      arith,
                      l.added y a.node new on_y a.linked_in m (
                          omega (
                            arith,
                            matches-key a.node (sought x) v.heap same,
                            matches-key y (sought x) v.heap z,
                          )),
                      s,
                    ))
                | inr z ↦ z
              ]
            ];
          }
    ]
