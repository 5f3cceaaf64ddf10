-- ===== src/BucketList/Order/Insert.antt =====
-- A node that a compare-and-exchange of src/BucketList.h links in, in the order of the nodes.
use concurrent_hash_sets.Base.{
  ℕ, suc, ◌≤◌, ◌<◌, ◌≡◌, ◌≢◌, ◌⊎◌, inl, inr, ite, Bool, true, false, update, arith, dec_lt,
}
use concurrent_hash_sets.MarkableReference.{Address}
use concurrent_hash_sets.BucketList.Heap.{Heap, null, tail, store_next}
use concurrent_hash_sets.BucketList.Order.{times, Ordered}

-- the ranks once `n` stands behind `p`
unfoldable pub raise : (p n : Address) → (Address → ℕ) → Address → ℕ
raise p n rank =
    update (λ a. ite (dec_lt (rank p) (rank a)) (suc (rank a)) (rank a)) n (suc (rank p))

pub raise_new : (p n : Address) (rank : Address → ℕ) → raise p n rank n ≡ suc (rank p)
unfolding raise
raise_new p n rank = ground arith

pub raise_above :
    (p n : Address) (rank : Address → ℕ) (a : Address)
    → n ≢ a
    → rank p < rank a
    → raise p n rank a ≡ suc (rank a)
unfolding raise
raise_above p n rank a d h = ground arith

pub raise_below :
    (p n : Address) (rank : Address → ℕ) (a : Address)
    → n ≢ a
    → rank a ≤ rank p
    → raise p n rank a ≡ rank a
unfolding raise
raise_below p n rank a d h = ground arith

pub raise-cases :
    (p n : Address) (rank : Address → ℕ) (a : Address)
    → n ≢ a
    → ((rank p < rank a) × (raise p n rank a ≡ suc (rank a)))
      ⊎ ((rank a ≤ rank p) × (raise p n rank a ≡ rank a))
unfolding raise
raise-cases p n rank a d = elim (dec_lt (rank p) (rank a)) [
  | yes h ↦ inl (h, raise_above p n rank a d h)
  | no h ↦ inr (omega arith, raise_below p n rank a d (omega arith))
]

module _ {T : Type 0} {on : Address → Bool} {rank : Address → ℕ} {h : Heap T}
    (o : Ordered on rank h) (p n : Address) (on_p : on p ≡ true) (nt : p ≢ tail)
    (live : h.marked p ≡ false) (off_n : on n ≡ false) (made : n < h.allocated) (nn : n ≢ null)
    (next_n : h.ref n ≡ h.ref p) (live_n : h.marked n ≡ false) (above : h.key p ≤ h.key n)
    (below : h.key n < h.key (h.ref p))
    (absent : (b : Address)
      → on b ≡ true
      → times b h.retired ≡ 0
      → rank b ≤ rank p
      → h.key b ≡ h.key n
      → h.elem b ≢ h.elem n) where
  apart : (a : Address) → on a ≡ true → n ≢ a
  apart a q = ground arith

  kept_p : times p h.retired ≡ 0
  kept_p = ground (arith, o.gone p)

  -- nothing unmarked stands between `p` and its successor
  behind :
      (b : Address) → on b ≡ true → h.marked b ≡ false → rank p < rank b → rank (h.ref p) ≤ rank b
  behind b q m l = ground (arith, o.gap p b, o.gone b)

  linked_on : Address → Bool
  linked_on = update on n true

  linked_rank : Address → ℕ
  linked_rank = raise p n rank

  linked_heap : Heap T
  linked_heap = store_next p n false h

  distinct :
      (a b : Address)
      → linked_on a ≡ true
      → linked_on b ≡ true
      → linked_rank a ≡ linked_rank b
      → a ≡ b
  unfolding linked_on linked_rank raise
  distinct a b qa qb r = ground (arith, o.distinct a b)

  stays : (a : Address) → linked_on a ≡ true → a ≢ tail → linked_on (linked_heap.ref a) ≡ true
  unfolding linked_on linked_heap store_next
  stays a qa q = ground (arith, o.stays a, o.stays p)

  forward :
      (a : Address)
      → linked_on a ≡ true
      → a ≢ tail
      → linked_rank a < linked_rank (linked_heap.ref a)
  unfolding linked_on linked_heap linked_rank store_next raise
  forward a qa q = ground (arith, o.forward a, o.forward p, o.stays a, o.stays p)

  gap :
      (a b : Address)
      → linked_on a ≡ true
      → a ≢ tail
      → linked_on b ≡ true
      → linked_rank a < linked_rank b
      → linked_rank b < linked_rank (linked_heap.ref a)
      → 0 < times b h.retired
  unfolding linked_on linked_heap linked_rank store_next raise
  gap a b qa q qb r s =
      ground (arith, o.gap a b, o.gap p b, o.gap a p, kept_p, o.stays a, o.stays p, o.distinct a p)

  gone :
      (a : Address) → 0 < times a h.retired → (linked_heap.marked a ≡ true) × (linked_on a ≡ true)
  unfolding linked_on linked_heap store_next
  gone a q = ground (arith, o.gone a, kept_p)

  closed :
      (a : Address)
      → linked_on a ≡ true
      → a ≢ tail
      → times a h.retired ≡ 0
      → times (linked_heap.ref a) h.retired ≡ 0
  unfolding linked_on linked_heap store_next
  closed a qa q r = ground (arith, o.closed a, o.closed p, kept_p, o.gone n)

  sorted :
      (a b : Address)
      → linked_on a ≡ true
      → linked_on b ≡ true
      → linked_rank a < linked_rank b
      → linked_heap.marked b ≡ false
      → h.key a ≤ h.key b
  unfolding linked_on linked_heap linked_rank store_next raise
  sorted a b qa qb r m = ground (
    arith,
    o.sorted a b,
    o.sorted a p,
    o.sorted (h.ref p) b,
    o.stays p,
    behind b,
    o.distinct a p,
    o.distinct (h.ref p) b,
  )

  cleared :
      (a b : Address)
      → linked_on a ≡ true
      → linked_on b ≡ true
      → linked_rank a < linked_rank b
      → linked_heap.marked b ≡ false
      → h.key a ≡ h.key b
      → h.elem a ≡ h.elem b
      → 0 < times a h.retired
  unfolding linked_on linked_heap linked_rank store_next raise
  cleared a b qa qb r m k x = ground (
    arith,
    o.cleared a b,
    absent a,
    o.sorted (h.ref p) b,
    o.stays p,
    behind b,
    o.distinct (h.ref p) b,
  )

  fresh : (a : Address) → linked_on a ≡ true → a < h.allocated
  unfolding linked_on
  fresh a q = ground (arith, o.fresh a)

  -- A node linked in behind an unmarked one, before which and behind which no other of its element is left.
  pub Ordered_insert : Ordered (update on n true) (raise p n rank) (store_next p n false h)
  unfolding linked_on linked_heap linked_rank store_next raise
  Ordered_insert = record {
    distinct = distinct;
    stays = stays;
    forward = forward;
    gap = gap;
    once = o.once;
    gone = gone;
    closed = closed;
    sorted = sorted;
    cleared = cleared;
    fresh = fresh;
    not_null = ground (arith, o.not_null);
    tail_on = ground (arith, o.tail_on);
    root_on = ground (arith, o.root_on);
    starts = λ a q. ground (arith, o.starts a, o.starts p, o.root_on);
    ends = λ a q. ground (arith, o.ends a, o.ends p, o.tail_on, o.distinct p tail);
    tail_last = o.tail_last;
    tail_unmarked = ground (arith, o.tail_unmarked);
    sentinel = λ a q k. ground (arith, o.sentinel a);
  }
