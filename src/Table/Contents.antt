-- ===== src/Table/Contents.antt =====
-- A table that holds a set: what finding, adding, erasing and rehashing do to its contents.
use concurrent_hash_sets.Base.{
  ℕ, ◌+◌, ◌%◌, ◌^◌, ◌≤◌, ◌<◌, ◌≡◌, ◌≢◌, refl, ap, get_or-replicate, ◌∙◌, Bool, true, false, List,
  [], flatten, arith, length, set, replicate, if◌then◌else◌,
}
use concurrent_hash_sets.Element.{Element, word}
use concurrent_hash_sets.Word.{add_word, sub_word}
use concurrent_hash_sets.Bucket.{
  has, erase, push_back, count, has-count, count-push_back, count-erase_self, length-push_back,
  length-erase,
}
use concurrent_hash_sets.Table.{Table, home, bucket_at, rehash}
use concurrent_hash_sets.Table.Place.{
  IsPlaced, copies, member, Rewrites, push_Rewrites, erase-Rewrites, count-flatten, empty-IsPlaced,
}
use concurrent_hash_sets.Table.Rehash.{rehash-SameContents, empty-amount, empty-copies}

abbrev pub most_buckets : ℕ
most_buckets = 2 ^ 60

module _ {T : Type 0} ⦃e : Element T⦄ where
  -- A table of `n` buckets that holds each element at most once, with its size counter.
  pub record HoldsSet (n : ℕ) (table : Table T) (size : ℕ) : Type 0 where
    pub is_placed : IsPlaced n table
    pub unique : (y : T) → copies n table y ≤ 1
    pub counted : size ≡ length (flatten table) % word
    pub small : n ≤ most_buckets

  pub member-flatten :
      {n : ℕ} {table : Table T} {size : ℕ}
      → HoldsSet n table size
      → (y : T) → member n table y ≡ has y (flatten table)
  member-flatten {n} {table} s y = ground (
    arith,
    count-flatten s.is_placed y,
    has-count y (flatten table),
    has-count y (bucket_at table (home y n)),
  )

  pub empty-HoldsSet : (n : ℕ) → 0 < n → n ≤ most_buckets → HoldsSet n (replicate n []) 0
  empty-HoldsSet n pos small = record {
    is_placed = empty-IsPlaced n pos;
    unique = λ y. omega (arith, empty-copies n y);
    counted = omega (arith, empty-amount T n);
    small = small;
  }

  pub empty-member : (n : ℕ) (x : T) → member n (replicate n []) x ≡ false
  unfolding has
  empty-member n x = ap (has x) (get_or-replicate n (home x n) [])

  -- Rehashing a set into `m` buckets.
  pub rehash-HoldsSet :
      {n size : ℕ} (m : ℕ) {table : Table T}
      → HoldsSet n table size
      → 0 < m
      → m ≤ most_buckets
      → HoldsSet m (rehash m table) size
  rehash-HoldsSet m s pos small =
      let r = rehash-SameContents m s.is_placed pos in
      record {
        is_placed = r.is_placed;
        unique = λ y. omega (arith, r.same_copies y, s.unique y);
        counted = omega (arith, r.same_amount, s.counted);
        small = small;
      }

  module _ {n size : ℕ} {table : Table T} (s : HoldsSet n table size) (x : T) where
    abbrev here : List T
    here = bucket_at table (home x n)

    -- A table of `m` buckets after an operation on `x`: still a set, with `x` in it or not, with the
    -- others as before.
    pub record Updates (present : Bool) (m : ℕ) (fresh : Table T) (size' : ℕ) : Type 0 where
      pub holds : HoldsSet m fresh size'
      pub self : member m fresh x ≡ present
      pub others : (y : T) → x ≢ y → member m fresh y ≡ member n table y
      pub amount :
          length (flatten fresh) + (if member n table x then 1 else 0)
          ≡ length (flatten table) + (if present then 1 else 0)

    pub same-Updates : (present : Bool) → member n table x ≡ present → Updates present n table size
    same-Updates present h = record { holds = s; self = h; others = λ y q. refl; amount = rw h }

    Rewrites-Updates :
        (present : Bool) {b : List T} {fresh : Table T} {size' : ℕ}
        → Rewrites n table x b fresh
        → count x b ≡ (if present then 1 else 0)
        → size' ≡ length (flatten fresh) % word
        → length (flatten fresh) + (if member n table x then 1 else 0)
          ≡ length (flatten table) + (if present then 1 else 0)
        → Updates present n fresh size'
    Rewrites-Updates present {b} {fresh} r once counted amount = record {
      holds = record {
        is_placed = r.is_placed;
        unique = λ y. elim (e.discrete x y) [
          | yes q ↦ rw (← q) (ground (arith, r.copies_self))
          | no q ↦ omega (arith, r.copies_ne y q, s.unique y)
        ];
        counted = counted;
        small = s.small;
      };
      self = ground (arith, r.copies_self, has-count x (bucket_at fresh (home x n)));
      others = λ y q. ground (
        arith,
        r.copies_ne y q,
        has-count y (bucket_at fresh (home y n)),
        has-count y (bucket_at table (home y n)),
      );
      amount = amount;
    }

    pub push-Updates :
        has x here ≡ false
        → Updates true n (set table (home x n) (push_back here x)) (add_word size 1)
    push-Updates absent =
        let r = push_Rewrites s.is_placed x in
        Rewrites-Updates true r (ground (arith, count-push_back x x here, has-count x here))
          (omega (arith, s.counted, r.amount, length-push_back x here))
          (rw absent (omega (arith, r.amount, length-push_back x here)))

    pub erase-Updates :
        has x here ≡ true → Updates false n (set table (home x n) (erase x here)) (sub_word size 1)
    erase-Updates present =
        let r = erase-Rewrites s.is_placed x in
        let once : count x here ≡ 1 = ground (arith, has-count x here, s.unique x) in
        let shorter = length-erase x here (omega (arith, once)) in
        Rewrites-Updates false r (omega (arith, count-erase_self x here, once))
          (omega (arith, s.counted, r.amount, shorter))
          (rw present (omega (arith, r.amount, shorter)))

    -- Rehashing into `m` buckets afterwards.
    pub rehash-Updates :
        {present : Bool} {k size' : ℕ} {fresh : Table T} (m : ℕ)
        → Updates present k fresh size'
        → 0 < m
        → m ≤ most_buckets
        → Updates present m (rehash m fresh) size'
    rehash-Updates m u pos small =
        let r = rehash-SameContents m u.holds.is_placed pos in
        record {
          holds = rehash-HoldsSet m u.holds pos small;
          self = r.same_member x ∙ u.self;
          others = λ y q. r.same_member y ∙ u.others y q;
          amount = omega (arith, r.same_amount, u.amount);
        }
