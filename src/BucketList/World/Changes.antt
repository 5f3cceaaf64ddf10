-- ===== src/BucketList/World/Changes.antt =====
-- The accesses of src/BucketList.h that change the memory, one at a time: what they keep.
pub mod Inserts
pub mod Marks
use concurrent_hash_sets.Base.{
  ℕ, suc, ◌%◌, ◌≤◌, ◌<◌, ◌≡◌, ◌≢◌, ◌⊎◌, inl, inr, refl, sym, ◌∙◌, ap, Bool, true, false, not, List,
  ◌∷◌, length, Option, none, some, arith, ℕ_discrete, dec_lt, Bool-cases, update,
}
use concurrent_hash_sets.Element.{Element}
use concurrent_hash_sets.MarkableReference.{Address}
use concurrent_hash_sets.History
use concurrent_hash_sets.History.{Op, add, remove, contains, Event}
use concurrent_hash_sets.BucketList.Heap.{
  Heap, null, tail, Target, matches, new_node, store_next, retire,
}
use concurrent_hash_sets.BucketList.Order.{times, Ordered, matches-same, matches-key}
use concurrent_hash_sets.BucketList.Order.Unlink.{Ordered_unlink, Ordered_mark}
use concurrent_hash_sets.BucketList.World.{
  World, Agrees, Later, sought, contents_after, matches-elem,
}

-- A step from `w` to `v` by the thread that owns the node `mine`.
pub record Change {T : Type 0} ⦃e : Element T⦄ (mine : Address) (w v : World T) : Type 0 where
  pub order : Ordered v.on v.rank v.heap
  pub agrees : Agrees v
  pub later : Later mine w v

module _ {T : Type 0} ⦃e : Element T⦄ where
  -- Memory that no linked node refers to: what is linked in stays as it is.
  pub record Aside (mine : Address) (w : World T) (k : Heap T) : Type 0 where
    pub key_on : (a : Address) → a < w.heap.allocated → k.key a ≡ w.heap.key a
    pub elem_on : (a : Address) → a < w.heap.allocated → k.elem a ≡ w.heap.elem a
    pub ref_on : (a : Address) → a < w.heap.allocated → a ≢ mine → k.ref a ≡ w.heap.ref a
    pub marked_on : (a : Address) → a < w.heap.allocated → a ≢ mine → k.marked a ≡ w.heap.marked a
    pub made : w.heap.allocated ≤ k.allocated
    pub retired_same : k.retired ≡ w.heap.retired

  abbrev pub at_heap : Heap T → World T → World T
  at_heap k w = record w { heap = k }

  module _ {mine : Address} {w : World T} {k : Heap T} (o : Ordered w.on w.rank w.heap)
      (g : Agrees w) (off : w.on mine ≡ false) (a : Aside mine w k) where
    key_at : (x : Address) → w.on x ≡ true → k.key x ≡ w.heap.key x
    key_at x q = a.key_on x (o.fresh x q)

    elem_at : (x : Address) → w.on x ≡ true → k.elem x ≡ w.heap.elem x
    elem_at x q = a.elem_on x (o.fresh x q)

    apart : (x : Address) → w.on x ≡ true → x ≢ mine
    apart x q = ground arith

    ref_at : (x : Address) → w.on x ≡ true → k.ref x ≡ w.heap.ref x
    ref_at x q = a.ref_on x (o.fresh x q) (apart x q)

    marked_at : (x : Address) → w.on x ≡ true → k.marked x ≡ w.heap.marked x
    marked_at x q = a.marked_on x (o.fresh x q) (apart x q)

    times_at : (x : Address) → times x k.retired ≡ times x w.heap.retired
    times_at x = ap (times x) a.retired_same

    matches_at : (x : Address) (t : Target T) → w.on x ≡ true → matches x t k ≡ matches x t w.heap
    matches_at x t q = matches-same x x t k w.heap (key_at x q) (elem_at x q)

    aside-Ordered : Ordered w.on w.rank k
    aside-Ordered = record {
      distinct = o.distinct;
      stays = λ x q r. rw (ref_at x q) (o.stays x q r);
      forward = λ x q r. rw (ref_at x q) (o.forward x q r);
      gap = λ x y q r s l m. ground (arith, o.gap x y, ref_at x, times_at y);
      once = λ x. ground (arith, o.once x, times_at x);
      gone = λ x q. ground (arith, o.gone x, marked_at x, times_at x);
      closed = λ x q r z.
          rw (ref_at x q) (ground (arith, o.closed x, times_at x, times_at (w.heap.ref x)));
      sorted = λ x y q r l m. ground (arith, o.sorted x y, key_at x, key_at y, marked_at y);
      cleared = λ x y q r l m s t.
          let keys : w.heap.key x ≡ w.heap.key y = sym (key_at x q) ∙ s ∙ key_at y r in
          let elems : w.heap.elem x ≡ w.heap.elem y = sym (elem_at x q) ∙ t ∙ elem_at y r in
          omega (arith, o.cleared x y q r l (sym (marked_at y r) ∙ m) keys elems, times_at x);
      fresh = λ x q. omega (arith, o.fresh x q, a.made);
      not_null = o.not_null;
      tail_on = o.tail_on;
      root_on = o.root_on;
      starts = o.starts;
      ends = o.ends;
      tail_last = key_at tail o.tail_on ∙ o.tail_last;
      tail_unmarked = marked_at tail o.tail_on ∙ o.tail_unmarked;
      sentinel = λ x q r. marked_at x q ∙ o.sentinel x q (omega (arith, key_at x q, r));
    }

    -- A thread allocates or writes its own node.
    pub Change-aside : Change mine w (at_heap k w)
    Change-aside = record {
      order = aside-Ordered;
      agrees = record {
        present = λ x q.
            let (n, on_n, live, same) = g.present x q in
            (n, on_n, marked_at n on_n ∙ live, matches_at n (sought x) on_n ∙ same);
        absent = λ x n q r s.
            g.absent x n q (sym (marked_at n q) ∙ r) (sym (matches_at n (sought x) q) ∙ s);
        legal = g.legal;
      };
      later = record {
        on_kept = λ x q. q;
        rank_kept = λ x y q r l. l;
        made = a.made;
        same_key = a.key_on;
        same_elem = a.elem_on;
        mark_kept = λ x q m. (marked_at x q ∙ m, ref_at x q);
        retired_kept = λ x q. omega (arith, q, times_at x);
        added = λ n x q r s m l. absurd (ground (arith, q, r));
        lost = λ x q r s. absurd (ground (arith, marked_at x, q, r, s));
        grown = inl refl;
        edges = λ x q r. inl (ref_at x q);
        others = λ m d q r. (q, a.ref_on m r d, a.marked_on m r d);
      };
    }

  module _ {w : World T} (o : Ordered w.on w.rank w.heap) (g : Agrees w) where
    -- Nothing happens.
    pub Change-none : (mine : Address) → Change mine w w
    Change-none mine = record {
      order = o;
      agrees = g;
      later = record {
        on_kept = λ x q. q;
        rank_kept = λ x y q r l. l;
        made = omega arith;
        same_key = λ x q. refl;
        same_elem = λ x q. refl;
        mark_kept = λ x q m. (m, refl);
        retired_kept = λ x q. q;
        added = λ n x q r s m l. absurd (ground (arith, q, r));
        lost = λ x q r s. absurd (ground (arith, r, s));
        grown = inl refl;
        edges = λ x q r. inl refl;
        others = λ m d q r. (q, refl, refl);
      };
    }

    -- A marked node is unlinked and retired.
    pub Change-unlink :
        (mine p c : Address)
        → w.on p ≡ true
        → p ≢ tail
        → w.heap.marked p ≡ false
        → w.heap.ref p ≡ c
        → w.heap.marked c ≡ true
        → Change mine w (at_heap (retire c (store_next p (w.heap.ref c) false w.heap)) w)
    unfolding store_next retire
    Change-unlink mine p c q nt live r dead = record {
      order = Ordered_unlink o p c q nt live r dead;
      agrees = record {
        present = λ x z.
            let (n, on_n, live_n, same) = g.present x z in
            (
              n,
              on_n,
              ground (arith, live_n, live),
              matches-same n n (sought x) _ w.heap refl refl ∙ same,
            );
        absent = λ x n s m z.
            g.absent x n s (ground (arith, m, live))
              (matches-same n n (sought x) w.heap _ refl refl ∙ z);
        legal = g.legal;
      };
      later = record {
        on_kept = λ x q. q;
        rank_kept = λ x y q r l. l;
        made = omega arith;
        same_key = λ x q. refl;
        same_elem = λ x q. refl;
        mark_kept = λ x s m. ground (arith, m, live);
        retired_kept = λ x s. unfold times in ground (arith, s);
        added = λ n x s z u m l. absurd (ground (arith, s, z));
        lost = λ x s z u. absurd (ground (arith, z, u, live));
        grown = inl refl;
        edges = λ x s z. ground (arith, r, dead, o.tail_unmarked);
        others = λ m d s z. ground (arith, q, s);
      };
    }
