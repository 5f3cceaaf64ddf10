-- ===== src/BucketList/Machine/Steps/Look.antt =====
-- `Contains` of src/BucketList.h at a node that it comes to.
use concurrent_hash_sets.Base.{
  ℕ, ◌≤◌, ◌<◌, ◌≡◌, ◌≢◌, ◌⊎◌, inl, inr, refl, sym, ◌∙◌, true, false, arith, Bool-cases, ℕ_discrete,
  dec_lt,
}
use concurrent_hash_sets.Element.{Element}
use concurrent_hash_sets.MarkableReference.{Address}
use concurrent_hash_sets.History.{contains}
use concurrent_hash_sets.BucketList.Keys.{make_ordinary_key}
use concurrent_hash_sets.BucketList.Heap.{tail, matches, at_or_past}
use concurrent_hash_sets.BucketList.Order.{
  times, Ordered, matches-key, past, not_past, unmarked_kept,
}
use concurrent_hash_sets.BucketList.World.{
  World, Agrees, Trail, here, next, Trail-from, sought, Moment, contents_after, matches-elem,
}
use concurrent_hash_sets.BucketList.World.Ahead.{Ahead}
use concurrent_hash_sets.BucketList.Machine.{Pc, System, look, looking, checking, returning, target}
use concurrent_hash_sets.BucketList.Machine.Threads.{Answered, Start, Knows}
use concurrent_hash_sets.BucketList.Machine.Invariant
use concurrent_hash_sets.BucketList.Machine.Invariant.{Inv}
use concurrent_hash_sets.BucketList.Machine.Steps.{go_on}

module _ {T : Type 0} ⦃e : Element T⦄ {w : World T} (o : Ordered w.on w.rank w.heap) (g : Agrees w)
    (x : T) where
  -- An unmarked node of `x` is here or ahead, and is the first of `x` on the way.
  pub record Toward (a : Address) : Type 0 where
    pub node : Address
    pub linked_in : w.on node ≡ true
    pub unmarked : w.heap.marked node ≡ false
    pub same : matches node (sought x) w.heap ≡ true
    pub not_past : w.rank a ≤ w.rank node
    pub first :
        (y : Address)
        → Trail w.heap a y
        → w.rank y < w.rank node
        → matches y (sought x) w.heap ≡ false

  -- What is not retired leads to what is not retired.
  Trail-kept :
      (a : Address)
      → w.on a ≡ true
      → times a w.heap.retired ≡ 0
      → (y : Address) → Trail w.heap a y
      → (w.on y ≡ true) × (times y w.heap.retired ≡ 0)
  Trail-kept a q z y here = (q, z)
  Trail-kept a q z y (next {b} r n) =
      let (on_b, kept) = Trail-kept a q z b r in (o.stays b on_b n, o.closed b on_b n kept)

  -- at the head of a list, in a set that contains `x`
  pub head-Toward :
      (head : Address) → Start w (sought x) head → contents_after w.events x ≡ true → Toward head
  head-Toward head st q =
      let (n, on_n, live, same) = g.present x q in
      let live_head = o.sentinel head st.linked_in st.even in
      let key_n = matches-key n (sought x) w.heap same in
      record {
        node = n;
        linked_in = on_n;
        unmarked = live;
        same = same;
        not_past = elim (dec_lt (w.rank n) (w.rank head)) [
          | yes l ↦
              absurd (omega (arith, o.sorted n head on_n st.linked_in l live_head, key_n, st.below))
          | no l ↦ omega arith
        ];
        first = λ y r l.
            let (on_y, kept) =
              Trail-kept head st.linked_in (unmarked_kept o (sought x) head live_head) y r in
            elim (Bool-cases (matches y (sought x) w.heap)) [
              | inl m ↦
                  let keys : w.heap.key y ≡ w.heap.key n =
                    matches-key y (sought x) w.heap m ∙ sym key_n in
                  let elems : w.heap.elem y ≡ w.heap.elem n =
                    matches-elem y x w.heap m ∙ sym (matches-elem n x w.heap same) in
                  absurd (omega (arith, o.cleared y n on_y on_n l live keys elems, kept))
              | inr m ↦ m
            ];
      }

  pub next-Toward :
      (curr : Address) → w.on curr ≡ true → curr ≢ tail → Ahead w x curr → Toward (w.heap.ref curr)
  next-Toward curr q nt a = record {
    node = a.node;
    linked_in = a.linked_in;
    unmarked = a.unmarked;
    same = a.same;
    not_past = elim (dec_lt (w.rank a.node) (w.rank (w.heap.ref curr))) [
      | yes l ↦ absurd (
          ground (
            arith,
            o.gap curr a.node q nt a.linked_in a.behind l,
            unmarked_kept o (sought x) a.node a.unmarked,
          ))
      | no l ↦ omega arith
    ];
    first = λ y r l. a.first y (Trail-from curr nt y r) l;
  }

  module _ (a : Address) (q : w.on a ≡ true) (t : Toward a) where
    matched : matches a (sought x) w.heap ≡ true → w.heap.marked a ≡ false
    matched m = elim (ℕ_discrete (w.rank a) (w.rank t.node)) [
      | yes r ↦ rw (o.distinct a t.node q t.linked_in r) t.unmarked
      | no r ↦ absurd (ground (arith, m, t.first a here (omega (arith, t.not_past))))
    ]

    differs_from : matches a (sought x) w.heap ≡ false → w.rank a < w.rank t.node
    differs_from m = elim (ℕ_discrete (w.rank a) (w.rank t.node)) [
      | yes r ↦ absurd (ground (arith, m, t.same, rw (o.distinct a t.node q t.linked_in r) at m))
      | no r ↦ omega (arith, t.not_past)
    ]

    never_past : matches a (sought x) w.heap ≡ false → make_ordinary_key x < w.heap.key a → ⊥
    never_past m l = omega (
      arith,
      o.sorted a t.node q t.linked_in (differs_from m) t.unmarked,
      matches-key t.node (sought x) w.heap t.same,
    )

    ahead : matches a (sought x) w.heap ≡ false → Ahead w x a
    ahead m = record {
      node = t.node;
      linked_in = t.linked_in;
      unmarked = t.unmarked;
      same = t.same;
      behind = differs_from m;
      first = t.first;
    }

module _ {T : Type 0} ⦃e : Element T⦄ {s : System T} (inv : Inv s) (i : ℕ) (c : Pc T)
    (at : s.pc i ≡ c) where
  pub look-Inv :
      (x : T) (a : Address)
      → inv.on a ≡ true
      → Moment (s.began i) x false s.events
        ⊎ Toward {w = Invariant.here inv} inv.order inv.agrees x a
      → Inv (look i x a s)
  unfolding look Knows Answered target
  look-Inv x a q f = elim (Bool-cases (at_or_past a (sought x) s.heap)) [
    | inl over ↦ elim (Bool-cases (matches a (sought x) s.heap)) [
      | inl m ↦
          rw (over, m)
            (go_on inv i c at (checking x a)
              record {
                curr_on = q;
                same = m;
                either = elim f [
                  | inl z ↦ inl z
                  | inr t ↦ inr (matched inv.order inv.agrees x a q t m)
                ];
              }
              (inl refl))
      | inr m ↦
          rw (over, m)
            (go_on inv i c at (returning (contains x) false)
              (elim f [
                | inl z ↦ z
                | inr t ↦
                    absurd
                      (never_past inv.order inv.agrees x a q t m (past a (sought x) s.heap over m))
              ])
              (inl refl))
    ]
    | inr under ↦
        let (low, m) = not_past a (sought x) s.heap under in
        rw under (
          go_on inv i c at (looking x a)
            record {
              curr_on = q;
              low = low;
              differs = m;
              either = elim f [
                | inl z ↦ inl z
                | inr t ↦ inr (ahead inv.order inv.agrees x a q t m)
              ];
            }
            (inl refl))
  ]
