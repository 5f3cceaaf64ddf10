-- ===== src/Table/Rehash.antt =====
-- The rehashing loop of `Resize`.
use concurrent_hash_sets.Base.{
  ℕ, ◌+◌, ◌<◌, ◌≡◌, List, [], ◌∷◌, ◌++◌, flatten, if_neg, ap, arith, length, replicate,
  length-append, flatten-replicate, get_or-replicate,
}
use concurrent_hash_sets.Element.{Element}
use concurrent_hash_sets.Bucket.{count, has-count, count-append, count-push_back, length-push_back}
use concurrent_hash_sets.Table.{Table, home, bucket_at, move_elem, move_bucket, move_all, rehash}
use concurrent_hash_sets.Table.Place.{
  IsPlaced, copies, member, empty-IsPlaced, push_Rewrites, count-flatten,
}

pub empty-amount {ℓ} : (A : Type ℓ) (n : ℕ) → length (flatten {A = A} (replicate n [])) ≡ 0
empty-amount A n = ap length (flatten-replicate n)

module _ {T : Type 0} ⦃e : Element T⦄ where
  -- `after` holds what `before` holds, and the elements of `moved`.
  pub record Receives (n : ℕ) (before : Table T) (moved : List T) (after : Table T) : Type 0 where
    pub is_placed : IsPlaced n after
    pub gained : (y : T) → copies n after y ≡ copies n before y + count y moved
    pub amount : length (flatten after) ≡ length (flatten before) + length moved

  move_elem-Receives :
      (n : ℕ) (x : T) {table : Table T}
      → IsPlaced n table
      → Receives n table (x ∷ []) (move_elem n x table)
  unfolding move_elem count
  move_elem-Receives n x {table} p =
      let r = push_Rewrites p x in
      record {
        is_placed = r.is_placed;
        gained = λ y. elim (e.discrete x y) [
          | yes q ↦
              rw (← q)
                (omega (arith, r.copies_self, count-push_back x x (bucket_at table (home x n))))
          | no q ↦ rw (if_neg _ q) (omega (arith, r.copies_ne y q))
        ];
        amount = omega (arith, r.amount, length-push_back x (bucket_at table (home x n)));
      }

  append-Receives :
      {n : ℕ} {a b c : Table T} (xs ys : List T)
      → Receives n a xs b
      → Receives n b ys c
      → Receives n a (xs ++ ys) c
  append-Receives xs ys r s = record {
    is_placed = s.is_placed;
    gained = λ y. omega (arith, r.gained y, s.gained y, count-append y xs ys);
    amount = omega (arith, r.amount, s.amount, length-append xs ys);
  }

  move_bucket-Receives :
      (n : ℕ) (b : List T) {table : Table T}
      → IsPlaced n table
      → Receives n table b (move_bucket n b table)
  unfolding move_bucket count
  move_bucket-Receives n [] p = record {
    is_placed = p;
    gained = λ y. omega arith;
    amount = omega arith;
  }
  move_bucket-Receives n (x ∷ b) p =
      let r = move_elem-Receives n x p in
      append-Receives (x ∷ []) b r (move_bucket-Receives n b r.is_placed)

  move_all-Receives :
      (n : ℕ) (bs : Table T) {table : Table T}
      → IsPlaced n table
      → Receives n table (flatten bs) (move_all n bs table)
  unfolding move_all flatten count
  move_all-Receives n [] p = record {
    is_placed = p;
    gained = λ y. omega arith;
    amount = omega arith;
  }
  move_all-Receives n (b ∷ bs) p =
      let r = move_bucket-Receives n b p in
      append-Receives b (flatten bs) r (move_all-Receives n bs r.is_placed)

  pub empty-copies : (n : ℕ) (y : T) → copies n (replicate n []) y ≡ 0
  unfolding count
  empty-copies n y = ap (count y) (get_or-replicate n (home y n) [])

  -- What one table holds, another of `n` buckets holds too.
  pub record SameContents (m n : ℕ) (old fresh : Table T) : Type 0 where
    pub is_placed : IsPlaced n fresh
    pub same_copies : (y : T) → copies n fresh y ≡ copies m old y
    pub same_member : (y : T) → member n fresh y ≡ member m old y
    pub same_amount : length (flatten fresh) ≡ length (flatten old)

  -- Rehashing a table whose elements stand in their buckets into at least one bucket keeps every
  -- element as often as it was there, in its bucket of the new capacity, and the number of
  -- elements.
  pub rehash-SameContents :
      {m : ℕ} (n : ℕ) {table : Table T}
      → IsPlaced m table
      → 0 < n
      → SameContents m n table (rehash n table)
  unfolding rehash
  rehash-SameContents {m} n {table} p h =
      let r = move_all-Receives n table (empty-IsPlaced n h) in
      let same : (y : T) → copies n (rehash n table) y ≡ copies m table y =
        λ y. omega (arith, r.gained y, count-flatten p y, empty-copies n y) in
      record {
        is_placed = r.is_placed;
        same_copies = same;
        same_member = λ y. ground (
          arith,
          same y,
          has-count y (bucket_at table (home y m)),
          has-count y (bucket_at (rehash n table) (home y n)),
        );
        same_amount = omega (arith, r.amount, empty-amount T n);
      }
