-- ===== src/BucketList/World/Changes/Inserts.antt =====
-- The compare-and-exchange of src/BucketList.h that links a node in: what it keeps.
use concurrent_hash_sets.Base.{
  ℕ, ◌≤◌, ◌<◌, ◌≡◌, ◌≢◌, ◌⊎◌, inl, inr, refl, sym, ◌∙◌, ap, true, false, List, ◌∷◌, arith,
  ℕ_discrete, Bool-cases, update,
}
use concurrent_hash_sets.Element.{Element}
use concurrent_hash_sets.MarkableReference.{Address}
use concurrent_hash_sets.History
use concurrent_hash_sets.History.{Op, add, remove, contains, Event}
use concurrent_hash_sets.BucketList.Heap.{null, tail, Target, matches, store_next}
use concurrent_hash_sets.BucketList.Order.{
  times, Ordered, matches-same, matches-key, Clear, nothing_matches,
}
use concurrent_hash_sets.BucketList.Order.Insert.{raise, Ordered_insert}
use concurrent_hash_sets.BucketList.World.{
  World, Agrees, Later, sought, contents_after, matches-elem,
}
use concurrent_hash_sets.BucketList.World.Changes.{Change}

module _ {T : Type 0} ⦃e : Element T⦄ {w : World T} (o : Ordered w.on w.rank w.heap) (g : Agrees w)
    (t : Target T) (p n : Address) (on_p : w.on p ≡ true) (nt : p ≢ tail)
    (live : w.heap.marked p ≡ false) (low : w.heap.key p ≤ t.key)
    (differs : matches p t w.heap ≡ false) (clear : Clear w.on w.rank w.heap t p)
    (off_n : w.on n ≡ false) (made : n < w.heap.allocated) (nn : n ≢ null)
    (next_n : w.heap.ref n ≡ w.heap.ref p) (live_n : w.heap.marked n ≡ false)
    (same_n : matches n t w.heap ≡ true) (above : t.key < w.heap.key (w.heap.ref p)) where
  linked : List (Event T) → World T
  linked h = record w {
    heap = store_next p n false w.heap;
    on = update w.on n true;
    rank = raise p n w.rank;
    events = h;
  }

  absent : (b : Address) → w.on b ≡ true → w.heap.marked b ≡ false → matches b t w.heap ≡ false
  absent = nothing_matches o t p on_p nt live low differs clear above

  key_n : w.heap.key n ≡ t.key
  key_n = matches-key n t w.heap same_n

  order : Ordered (update w.on n true) (raise p n w.rank) (store_next p n false w.heap)
  order =
      Ordered_insert o p n on_p nt live off_n made nn next_n live_n (omega (arith, key_n, low))
        (omega (arith, key_n, above))
        (λ b on_b kept l keys elems.
          let differs_b : matches b t w.heap ≡ false = elim (ℕ_discrete (w.rank b) (w.rank p)) [
            | yes q ↦ rw (o.distinct b p on_b on_p q) differs
            | no q ↦ clear live low b on_b kept (omega arith)
          ] in
          ground (arith, differs_b, matches-same b n t w.heap w.heap keys elems, same_n))

  later :
      (h : List (Event T))
      → (h ≡ w.events) ⊎ ((a : Event T) × (h ≡ a ∷ w.events))
      → Later n w (linked h)
  unfolding linked store_next raise
  later h grown = record {
    on_kept = λ x q. ground (arith, q);
    rank_kept = λ x y q r l. ground (arith, q, r, l);
    made = omega arith;
    same_key = λ x q. refl;
    same_elem = λ x q. refl;
    mark_kept = λ x s m. ground (arith, m, live);
    retired_kept = λ x s. s;
    added = λ m a s z q u l.
        let new : n ≡ m = ground (arith, s, z) in
        let keys : w.heap.key a ≤ w.heap.key n = rw new l in
        let dead : 0 < times a w.heap.retired → w.heap.marked a ≡ true = λ z. (o.gone a z).0 in
        ground (
          arith,
          new,
          u,
          keys,
          key_n,
          above,
          q,
          o.sorted (w.heap.ref p) a,
          o.distinct (w.heap.ref p) a,
          o.gap p a,
          dead,
          o.stays p,
          ap w.heap.key (sym new),
        );
    lost = λ a s z u. absurd (ground (arith, z, u, live));
    grown = grown;
    edges = λ a s z. ground (arith, next_n, off_n, s, z, on_p, o.stays a);
    others = λ m d s z. ground (arith, on_p, d, s);
  }

  kept_matches :
      (u : Target T) (b : Address) → matches b u w.heap ≡ matches b u (store_next p n false w.heap)
  unfolding store_next
  kept_matches u b = matches-same b b u w.heap _ refl refl

  -- `SentinelFor` links its node in.
  pub Change-sentinel :
      ((x : T) → t.key ≢ (sought x).key)
      → Change n w (record w {
        heap = store_next p n false w.heap;
        on = update w.on n true;
        rank = raise p n w.rank;
      })
  unfolding linked store_next
  Change-sentinel even = record {
    order = order;
    agrees = record {
      present = λ x q.
          let (a, on_a, live_a, same) = g.present x q in
          (
            a,
            ground (arith, on_a),
            ground (arith, live_a, live),
            sym (kept_matches (sought x) a) ∙ same,
          );
      absent = λ x a q m same.
          let same_a : matches a (sought x) w.heap ≡ true = kept_matches (sought x) a ∙ same in
          let other : n ≢ a =
            λ r. even x (sym key_n ∙ ap w.heap.key r ∙ matches-key a (sought x) w.heap same_a) in
          g.absent x a (ground (arith, q, other)) (ground (arith, m, live)) same_a;
      legal = g.legal;
    };
    later = later w.events (inl refl);
  }

  -- `Add` links its node in.
  pub Change-add :
      (i : ℕ) (x : T)
      → t ≡ sought x
      → Change n w (record w {
        heap = store_next p n false w.heap;
        on = update w.on n true;
        rank = raise p n w.rank;
        events = record { thread = i; op = add x; answer = true } ∷ w.events;
      })
  unfolding linked store_next contents_after
  Change-add i x is_x =
      let is_n : matches n (sought x) w.heap ≡ true = rw is_x at same_n in
      let elem_n = matches-elem n x w.heap is_n in
      let was : contents_after w.events x ≡ false = elim (Bool-cases (contents_after w.events x)) [
        | inl q ↦
            let (a, on_a, live_a, same) = g.present x q in
            let differs_a : matches a (sought x) w.heap ≡ false =
              rw is_x at (absent a on_a live_a) in
            absurd (ground (arith, same, differs_a))
        | inr q ↦ q
      ] in
      record {
        order = order;
        agrees = record {
          present = λ y q. elim (e.discrete x y) [
            | yes r ↦ (
              n,
              ground arith,
              ground (arith, live_n),
              sym (kept_matches (sought y) n) ∙ (rw r at is_n),
            )
            | no r ↦
                let (a, on_a, live_a, same) = g.present y (ground (arith, r, q)) in
                (
                  a,
                  ground (arith, on_a),
                  ground (arith, live_a, live),
                  sym (kept_matches (sought y) a) ∙ same,
                )
          ];
          absent = λ y a q m same.
              let same_a : matches a (sought y) w.heap ≡ true = kept_matches (sought y) a ∙ same in
              let elem_a = matches-elem a y w.heap same_a in
              elim (ℕ_discrete n a) [
                | yes r ↦
                    let elems : x ≡ y = sym elem_n ∙ ap w.heap.elem r ∙ elem_a in
                    ground (arith, elems)
                | no r ↦
                    let now =
                      g.absent y a (ground (arith, q, r)) (ground (arith, m, live)) same_a in
                    ground (arith, now)
              ];
          legal =
              History.next (record { thread = i; op = add x; answer = true }) g.legal
                (ground (arith, was), ground arith, λ y r. ground (arith, r));
        };
        later = later _ (inr (_, refl));
      }
