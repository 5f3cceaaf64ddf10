-- ===== src/Table/Place.antt =====
-- Every element stands once, in the bucket of its hash; what one write to that bucket does.
use native.Mathlib.Nat.{mod-lt}
use concurrent_hash_sets.Base.{
  ℕ, zero, suc, ◌+◌, ◌<◌, ◌≡◌, ◌≢◌, refl, sym, ◌∙◌, ap, Bool, List, [], ◌∷◌, flatten, arith, length,
  set, replicate, length-set, get_or-set_self, get_or-set_ne, get_or-replicate, length-replicate,
  length-flatten-set, ℕ_discrete,
}
use concurrent_hash_sets.Element.{Element}
use concurrent_hash_sets.Bucket.{
  has, erase, push_back, count, count-append, count-push_back, count-erase_ne,
}
use concurrent_hash_sets.Table.{Table, home, bucket_at}

module _ {T : Type 0} ⦃e : Element T⦄ where
  pub home-lt : (x : T) (n : ℕ) → 0 < n → home x n < n
  unfolding home
  home-lt x n h = mod-lt _ h

  -- A table of `n` buckets in which each element stands only in the bucket of its hash.
  pub record IsPlaced (n : ℕ) (table : Table T) : Type 0 where
    pub width : length table ≡ n
    pub roomy : 0 < n
    pub placed : (y : T) (i : ℕ) → i ≢ home y n → count y (bucket_at table i) ≡ 0

  -- how often an element stands in its bucket
  abbrev pub copies : ℕ → Table T → T → ℕ
  copies n table y = count y (bucket_at table (home y n))

  -- what `Contains` reads
  abbrev pub member : ℕ → Table T → T → Bool
  member n table y = has y (bucket_at table (home y n))

  pub empty-IsPlaced : (n : ℕ) → 0 < n → IsPlaced n (replicate n [])
  unfolding count
  empty-IsPlaced n h = record {
    width = length-replicate n [];
    roomy = h;
    placed = λ y i _. ap (count y) (get_or-replicate n i []);
  }

  -- Writing `b` to the bucket of `x`, where `b` differs from the old bucket in copies of `x` only.
  pub record Rewrites (n : ℕ) (table : Table T) (x : T) (b : List T) (fresh : Table T)
      : Type 0 where
    pub is_placed : IsPlaced n fresh
    pub copies_self : copies n fresh x ≡ count x b
    pub copies_ne : (y : T) → x ≢ y → copies n fresh y ≡ copies n table y
    pub amount :
        length (flatten fresh) + length (bucket_at table (home x n))
        ≡ length (flatten table) + length b

  module _ {n : ℕ} {table : Table T} (p : IsPlaced n table) (x : T) where
    abbrev pub own : List T
    own = bucket_at table (home x n)

    pub rewrite_home :
        (b : List T)
        → ((y : T) → x ≢ y → count y b ≡ count y own)
        → Rewrites n table x b (set table (home x n) b)
    rewrite_home b same = record {
      is_placed = record {
        width = length-set table (home x n) b ∙ p.width;
        roomy = p.roomy;
        placed = λ y i h. elim (ℕ_discrete (home x n) i) [
          | yes q ↦
              let apart : home x n ≢ home y n = λ r. h (sym q ∙ r) in
              rw (← q, get_or-set_self table (home x n) b [] in_range)
                (same y (λ r. apart (ap (λ z. home z n) r)) ∙ p.placed y (home x n) apart)
          | no q ↦ rw (get_or-set_ne table (home x n) i b [] q) (p.placed y i h)
        ];
      };
      copies_self = ap (count x) (get_or-set_self table (home x n) b [] in_range);
      copies_ne = λ y h. elim (ℕ_discrete (home x n) (home y n)) [
        | yes q ↦ rw (← q, get_or-set_self table (home x n) b [] in_range) (same y h)
        | no q ↦ rw (get_or-set_ne table (home x n) (home y n) b [] q)
      ];
      amount = length-flatten-set table (home x n) b in_range;
    }
      where
        in_range : home x n < length table
        in_range = omega (arith, p.width, home-lt x n p.roomy)

    -- `push_back` of an element to its bucket
    pub push_Rewrites :
        Rewrites n table x (push_back own x) (set table (home x n) (push_back own x))
    push_Rewrites = rewrite_home (push_back own x) (λ y h. ground (arith, count-push_back x y own))

    -- `erase` of an element from its bucket
    pub erase-Rewrites : Rewrites n table x (erase x own) (set table (home x n) (erase x own))
    erase-Rewrites = rewrite_home (erase x own) (λ y h. count-erase_ne x y own h)

  -- What a table holds, bucket for bucket or all in all, is the same.
  pub count-flatten_none :
      (table : Table T) (y : T)
      → ((i : ℕ) → count y (bucket_at table i) ≡ 0)
      → count y (flatten table) ≡ 0
  unfolding flatten count
  count-flatten_none [] y h = refl
  count-flatten_none (b ∷ bs) y h =
      omega (arith, count-append y b (flatten bs), h 0, count-flatten_none bs y (λ i. h (suc i)))

  count-flatten_at :
      (table : Table T) (y : T) (i : ℕ)
      → ((j : ℕ) → j ≢ i → count y (bucket_at table j) ≡ 0)
      → count y (flatten table) ≡ count y (bucket_at table i)
  unfolding flatten count
  count-flatten_at [] y i h = refl
  count-flatten_at (b ∷ bs) y zero h =
      omega (
        arith,
        count-append y b (flatten bs),
        count-flatten_none bs y (λ i. h (suc i) (omega arith)),
      )
  count-flatten_at (b ∷ bs) y (suc i) h = omega (
    arith,
    count-append y b (flatten bs),
    h 0 (omega arith),
    count-flatten_at bs y i (λ j d. h (suc j) (omega arith)),
  )

  pub count-flatten :
      {n : ℕ} {table : Table T}
      → IsPlaced n table
      → (y : T) → count y (flatten table) ≡ copies n table y
  count-flatten {n} {table} p y = count-flatten_at table y (home y n) (p.placed y)
