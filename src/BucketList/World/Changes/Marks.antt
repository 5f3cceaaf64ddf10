-- ===== src/BucketList/World/Changes/Marks.antt =====
-- The marking of a node of src/BucketList.h: what it keeps.
use concurrent_hash_sets.Base.{
  ℕ, ◌%◌, ◌≡◌, ◌≢◌, inl, inr, refl, sym, ◌∙◌, ap, true, false, ◌∷◌, arith,
}
use concurrent_hash_sets.Element.{Element}
use concurrent_hash_sets.MarkableReference.{Address}
use concurrent_hash_sets.History
use concurrent_hash_sets.History.{Op, add, remove, contains, Event}
use concurrent_hash_sets.BucketList.Heap.{tail, matches, store_next}
use concurrent_hash_sets.BucketList.Order.{Ordered, matches-same, matches-key}
use concurrent_hash_sets.BucketList.Order.Unlink.{Ordered_mark}
use concurrent_hash_sets.BucketList.World.{World, Agrees, sought, contents_after, matches-elem}
use concurrent_hash_sets.BucketList.World.Changes.{Change}

module _ {T : Type 0} ⦃e : Element T⦄ {w : World T} (o : Ordered w.on w.rank w.heap)
    (g : Agrees w) where
  -- A node of `x` is marked.
  pub Change-mark :
      (mine c i : ℕ) (x : T)
      → w.on c ≡ true
      → c ≢ tail
      → w.heap.marked c ≡ false
      → matches c (sought x) w.heap ≡ true
      → w.heap.key c % 2 ≡ 1
      → Change mine w (record w {
        heap = store_next c (w.heap.ref c) true w.heap;
        events = record { thread = i; op = remove x; answer = true } ∷ w.events;
      })
  unfolding store_next contents_after
  Change-mark mine c i x q nt live is_x odd =
      let is_elem = matches-elem c x w.heap is_x in
      let was : contents_after w.events x ≡ true = g.absent x c q live is_x in
      let sole : (n : Address)
          → w.on n ≡ true
          → w.heap.marked n ≡ false
          → matches n (sought x) w.heap ≡ true
          → n ≡ c =
        λ n on_n live_n same_n.
          let keys : w.heap.key n ≡ w.heap.key c =
            matches-key n (sought x) w.heap same_n ∙ sym (matches-key c (sought x) w.heap is_x) in
          let elems : w.heap.elem n ≡ w.heap.elem c =
            matches-elem n x w.heap same_n ∙ sym is_elem in
          ground (
            arith,
            o.distinct n c,
            o.cleared n c on_n q,
            o.cleared c n q on_n,
            keys,
            elems,
            sym elems,
            o.gone c,
            o.gone n,
          ) in
      record {
        order = Ordered_mark o c q nt odd;
        agrees = record {
          present = λ y z. elim (e.discrete x y) [
            | yes s ↦ absurd (ground (arith, s, z))
            | no s ↦
                let (n, on_n, live_n, same) = g.present y (ground (arith, s, z)) in
                let other : c ≢ n =
                  λ r. s (sym is_elem ∙ ap w.heap.elem r ∙ matches-elem n y w.heap same) in
                (
                  n,
                  on_n,
                  ground (arith, live_n, other),
                  matches-same n n (sought y) _ w.heap refl refl ∙ same,
                )
          ];
          absent = λ y n s m z.
              let same : matches n (sought y) w.heap ≡ true =
                matches-same n n (sought y) w.heap _ refl refl ∙ z in
              let live_n : w.heap.marked n ≡ false = ground (arith, m) in
              let now = g.absent y n s live_n same in
              elim (e.discrete x y) [
                | yes r ↦ absurd (ground (arith, m, sole n s live_n (rw r same)))
                | no r ↦ ground (arith, r, now)
              ];
          legal =
              History.next (record { thread = i; op = remove x; answer = true }) g.legal
                (sym was, ground arith, λ y r. ground (arith, r));
        };
        later = record {
          on_kept = λ x q. q;
          rank_kept = λ x y q r l. l;
          made = omega arith;
          same_key = λ x q. refl;
          same_elem = λ x q. refl;
          mark_kept = λ a s m. ground (arith, m, live);
          retired_kept = λ x s. s;
          added = λ n a s z u m l. absurd (ground (arith, s, z));
          lost = λ a s z u.
              let here : c ≡ a = ground (arith, z, u) in
              let elem_a : x ≡ w.heap.elem a = sym is_elem ∙ ap w.heap.elem here in
              ground (arith, elem_a);
          grown = inr (_, refl);
          edges = λ a s z. inl (ground arith);
          others = λ m d s z. ground (arith, q, s);
        };
      }
