-- ===== src/BucketList/Machine/Reachable.antt =====
-- What holds between the steps holds in every state that threads reach on the list of
-- src/BucketList.h.
use concurrent_hash_sets.Base.{
  ℕ, ◌≤◌, ◌≡◌, ◌≢◌, inl, inr, refl, Bool, true, false, length, arith, Bool-cases, update, update_ne,
  ℕ_discrete, ◌==◌, ==_iff, ==→ne,
}
use concurrent_hash_sets.Element.{Element}
use concurrent_hash_sets.MarkableReference.{Address}
use concurrent_hash_sets.History
use concurrent_hash_sets.History.{Op, add, remove, contains, Allowed}
use concurrent_hash_sets.BucketList.Keys.{make_ordinary_key, make_sentinel_key}
use concurrent_hash_sets.BucketList.Keys.Order.{make_ordinary_key-odd, make_ordinary_key-lt}
use concurrent_hash_sets.BucketList.Heap.{null, tail, root, Target, make_root}
use concurrent_hash_sets.BucketList.Order.{times, Ordered, matches-key}
use concurrent_hash_sets.BucketList.World.{sought, contents_after, now}
use concurrent_hash_sets.BucketList.Machine.{
  Job, adding, removing, placing, idle, find_head, placed, System, goto, look, target, begun, place,
  initial, Reach, start, call_add, call_remove, call_contains, call_sentinel_for, later,
}
use concurrent_hash_sets.BucketList.Machine.Threads.{own_node, Start, Knows}
use concurrent_hash_sets.BucketList.Machine.Invariant
use concurrent_hash_sets.BucketList.Machine.Invariant.{Inv}
use concurrent_hash_sets.BucketList.Machine.Steps.{go_on}
use concurrent_hash_sets.BucketList.Machine.Steps.Advance.{advance-Inv}
use concurrent_hash_sets.BucketList.Machine.Steps.Look.{look-Inv, head-Toward}

-- after `MakeRoot`, the root and the tail are linked in
first_on : Address → Bool
first_on = update (update (λ a. false) tail true) root true

first_rank : Address → ℕ
first_rank = update (λ a. 0) tail 1

module _ {T : Type 0} ⦃e : Element T⦄ where
  initial-Ordered : (blank : T) → Ordered first_on first_rank (make_root blank)
  unfolding first_on first_rank make_root times ℕ_discrete
  initial-Ordered blank = record {
    distinct = λ a b q r s. ground arith;
    stays = λ a q r. ground arith;
    forward = λ a q r. ground arith;
    gap = λ a b q r s l m. absurd (ground arith);
    once = λ a. omega arith;
    gone = λ a q. absurd (omega arith);
    closed = λ a q r z. refl;
    sorted = λ a b q r l m. ground arith;
    cleared = λ a b q r l m s t. absurd (ground arith);
    fresh = λ a q. ground arith;
    not_null = refl;
    tail_on = refl;
    root_on = refl;
    starts = λ a q. ground arith;
    ends = λ a q. ground arith;
    tail_last = refl;
    tail_unmarked = refl;
    sentinel = λ a q r. refl;
  }

  initial-Inv : (blank : T) → Inv (initial blank)
  unfolding Knows contents_after
  initial-Inv blank = record {
    on = first_on;
    rank = first_rank;
    order = initial-Ordered blank;
    agrees = record {
      present = λ x q. absurd (ground arith);
      absent = λ x a q m s. absurd (
          unfold first_on make_root in
          ground (
            arith,
            matches-key a (sought x) (make_root blank) s,
            make_ordinary_key-odd x,
            make_ordinary_key-lt x,
          ));
      legal = History.start;
    };
    sentinels = λ a q. unfold first_on make_root in ground arith;
    knows = λ i. tt;
    apart = λ i j d q. absurd (q refl);
    own_made = λ i. unfold make_root in omega arith;
    begun = λ i. omega arith;
  }

  begun-Inv : {s : System T} (i : ℕ) → s.pc i ≡ idle → Inv s → Inv (begun i s)
  unfolding Knows
  begun-Inv {s} i at inv = record {
    on = inv.on;
    rank = inv.rank;
    order = inv.order;
    agrees = inv.agrees;
    sentinels = inv.sentinels;
    knows = λ j. elim (ℕ_discrete i j) [
      | yes q ↦ rw (← q, at) tt
      | no q ↦ rw (update_ne s.began i j (length s.events) q) (inv.knows j)
    ];
    apart = inv.apart;
    own_made = inv.own_made;
    begun = λ j. ground (arith, inv.begun j);
  }

  module _ {s : System T} (inv : Inv s) (i : ℕ) (at : s.pc i ≡ idle) where
    -- the head of a list that a call is made on
    started :
        (t : Target T) (head : Address)
        → s.given head ≡ true
        → s.heap.key head ≤ t.key
        → s.heap.key head ≢ t.key
        → Start (Invariant.here inv) t head
    started t head q le d =
        let (on_head, even) = inv.sentinels head q in
        record { linked_in = on_head; even = even; below = omega arith }

    find-Inv :
        (job : Job T) (head : Address)
        → own_node (find_head job head) ≡ null
        → s.given head ≡ true
        → s.heap.key head ≤ (target job).key
        → s.heap.key head ≢ (target job).key
        → Inv (goto i (find_head job head) s)
    unfolding Knows
    find-Inv job head none q le d =
        go_on inv i _ at (find_head job head)
          (started (target job) head q le d, λ n. absurd (n none)) (inl none)

    odd_key : (head : Address) (x : T) → s.given head ≡ true → s.heap.key head ≢ make_ordinary_key x
    odd_key head x q r = omega (arith, (inv.sentinels head q).1, make_ordinary_key-odd x, r)

    contains-Inv :
        (x : T) (head : Address)
        → s.given head ≡ true
        → s.heap.key head ≤ make_ordinary_key x
        → Inv (look i x head s)
    contains-Inv x head q le =
        let st = started (sought x) head q le (odd_key head x q) in
        look-Inv inv i _ at x head st.linked_in (elim (Bool-cases (contents_after s.events x)) [
          | inl present ↦ inr (head-Toward inv.order inv.agrees x head st present)
          | inr absent ↦ inl (now (inv.begun i) absent)
        ])

    place-Inv :
        (index : ℕ) (head : Address)
        → s.given head ≡ true
        → s.heap.key head ≤ make_sentinel_key index
        → Inv (place i index head s)
    unfolding Knows target
    place-Inv index head q le = elim (Bool-cases (s.heap.key head == make_sentinel_key index)) [
      | inl same ↦ rw same (
          go_on inv i _ at (placed index head) ((inv.sentinels head q).0, (==_iff _ _).0 same)
            (inl refl))
      | inr other ↦ rw other (find-Inv (placing index null) head refl q le (==→ne _ _ other))
    ]

  pub Reach-Inv : {blank : T} {s : System T} → Reach blank s → Inv s
  unfolding target
  Reach-Inv {blank} start = initial-Inv blank
  Reach-Inv (call_add {s} i x head r at q le) =
      let inv = begun-Inv i at (Reach-Inv r) in
      find-Inv inv i at (adding x null) head refl q le (odd_key inv i at head x q)
  Reach-Inv (call_remove {s} i x head r at q le) =
      let inv = begun-Inv i at (Reach-Inv r) in
      find-Inv inv i at (removing x) head refl q le (odd_key inv i at head x q)
  Reach-Inv (call_contains {s} i x head r at q le) =
      contains-Inv (begun-Inv i at (Reach-Inv r)) i at x head q le
  Reach-Inv (call_sentinel_for {s} i index head r at q le) =
      place-Inv (begun-Inv i at (Reach-Inv r)) i at index head q le
  Reach-Inv {blank} (later {s} i r) = advance-Inv (Reach-Inv r) i blank
