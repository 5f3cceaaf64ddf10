-- ===== src/BucketList/Order/Unlink.antt =====
-- A marked node that a compare-and-exchange of src/BucketList.h unlinks and hands to the
-- reclaimer, in the order of the nodes; and the marking of a node.
use concurrent_hash_sets.Base.{ℕ, ◌%◌, ◌≤◌, ◌<◌, ◌≡◌, ◌≢◌, Bool, true, false, arith}
use concurrent_hash_sets.MarkableReference.{Address}
use concurrent_hash_sets.BucketList.Heap.{Heap, tail, store_next, retire}
use concurrent_hash_sets.BucketList.Order.{times, Ordered}

module _ {T : Type 0} {on : Address → Bool} {rank : Address → ℕ} {h : Heap T}
    (o : Ordered on rank h) where
  module _ (p c : Address) (on_p : on p ≡ true) (nt : p ≢ tail) (live : h.marked p ≡ false)
      (next_p : h.ref p ≡ c) (dead : h.marked c ≡ true) where
    kept_p : times p h.retired ≡ 0
    kept_p = ground (arith, o.gone p)

    on_c : on c ≡ true
    on_c = ground (arith, o.stays p)

    inner : c ≢ tail
    inner = ground (arith, o.tail_unmarked)

    -- what was not retired before
    pub kept_next : times c h.retired ≡ 0
    kept_next = ground (arith, o.closed p, kept_p)

    -- the other nodes that refer to `c` are retired
    sole : (a : Address) → on a ≡ true → a ≢ tail → a ≢ p → h.ref a ≡ c → 0 < times a h.retired
    sole a q r s z =
        ground (arith, o.gap p a, o.gap a p, o.forward p, o.forward a, o.distinct a p, kept_p)

    after : Heap T
    after = retire c (store_next p (h.ref c) false h)

    stays : (a : Address) → on a ≡ true → a ≢ tail → on (after.ref a) ≡ true
    unfolding after store_next retire
    stays a q r = ground (arith, o.stays a, o.stays c, on_c, inner)

    forward : (a : Address) → on a ≡ true → a ≢ tail → rank a < rank (after.ref a)
    unfolding after store_next retire
    forward a q r = ground (arith, o.forward a, o.forward p, o.forward c, on_c, inner)

    gap :
        (a b : Address)
        → on a ≡ true
        → a ≢ tail
        → on b ≡ true
        → rank a < rank b
        → rank b < rank (after.ref a)
        → 0 < times b after.retired
    unfolding after store_next retire times
    gap a b q r s l m = ground (arith, o.gap a b, o.gap c b, on_c, inner, o.distinct b c)

    once : (a : Address) → times a after.retired ≤ 1
    unfolding after store_next retire times
    once a = ground (arith, o.once a, kept_next)

    gone : (a : Address) → 0 < times a after.retired → (after.marked a ≡ true) × (on a ≡ true)
    unfolding after store_next retire times
    gone a q = ground (arith, o.gone a, on_c, kept_p)

    closed :
        (a : Address)
        → on a ≡ true
        → a ≢ tail
        → times a after.retired ≡ 0
        → times (after.ref a) after.retired ≡ 0
    unfolding after store_next retire times
    closed a q r z =
        ground (arith, o.closed a, o.closed c, kept_next, sole a, on_c, inner, o.forward c)

    -- A marked node unlinked from an unmarked one, and retired.
    pub Ordered_unlink : Ordered on rank (retire c (store_next p (h.ref c) false h))
    unfolding after store_next retire
    Ordered_unlink = record {
      distinct = o.distinct;
      stays = stays;
      forward = forward;
      gap = gap;
      once = once;
      gone = gone;
      closed = closed;
      sorted = λ a b q r l m. ground (arith, o.sorted a b);
      cleared = λ a b q r l m k x. unfold times in ground (arith, o.cleared a b);
      fresh = o.fresh;
      not_null = o.not_null;
      tail_on = o.tail_on;
      root_on = o.root_on;
      starts = o.starts;
      ends = o.ends;
      tail_last = o.tail_last;
      tail_unmarked = ground (arith, o.tail_unmarked);
      sentinel = λ a q k. ground (arith, o.sentinel a);
    }

  module _ (c : Address) (on_c : on c ≡ true) (nt : c ≢ tail) (ordinary : h.key c % 2 ≡ 1) where
    -- A node marked.
    pub Ordered_mark : Ordered on rank (store_next c (h.ref c) true h)
    unfolding store_next
    Ordered_mark = record {
      distinct = o.distinct;
      stays = λ a q r. ground (arith, o.stays a);
      forward = λ a q r. ground (arith, o.forward a);
      gap = λ a b q r s l m. ground (arith, o.gap a b);
      once = o.once;
      gone = λ a q. ground (arith, o.gone a);
      closed = λ a q r z. ground (arith, o.closed a);
      sorted = λ a b q r l m. ground (arith, o.sorted a b);
      cleared = λ a b q r l m k x. ground (arith, o.cleared a b);
      fresh = o.fresh;
      not_null = o.not_null;
      tail_on = o.tail_on;
      root_on = o.root_on;
      starts = o.starts;
      ends = o.ends;
      tail_last = o.tail_last;
      tail_unmarked = ground (arith, o.tail_unmarked);
      sentinel = λ a q k. ground (arith, o.sentinel a);
    }
