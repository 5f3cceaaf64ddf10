-- ===== src/Striped/Commute.antt =====
-- The sections of src/HashSetStriped.h under two mutexes, in either order.
use concurrent_hash_sets.Base.{
  ℕ, suc, ◌≡◌, ◌≢◌, refl, sym, ◌∙◌, inl, inr, ap, Bool, false, not, if◌then◌else◌, List, [], ◌∷◌,
  zero, set, get_or-set_ne, Bool-cases, arith,
}
use concurrent_hash_sets.Element.{Element}
use concurrent_hash_sets.Word.{add_word, sub_word}
use concurrent_hash_sets.Bucket.{has, erase, push_back}
use concurrent_hash_sets.History.{Op, add, remove, contains}
use concurrent_hash_sets.Locked
use concurrent_hash_sets.Locked.{Locked}
use concurrent_hash_sets.Striped.{HashSetStriped, mutex_index}
use concurrent_hash_sets.Striped.Stripes.{IsStriped, other_bucket}

set-set :
    {A : Type 0} (xs : List A) (i j : ℕ) (a b : A)
    → i ≢ j
    → set (set xs i a) j b ≡ set (set xs j b) i a
set-set [] i j a b d = refl
set-set (x ∷ xs) zero zero a b d = absurd (d refl)
set-set (x ∷ xs) zero (suc j) a b d = refl
set-set (x ∷ xs) (suc i) zero a b d = refl
set-set (x ∷ xs) (suc i) (suc j) a b d = ap (λ l. x ∷ l) (set-set xs i j a b (λ q. d (ap suc q)))

module _ {T : Type 0} ⦃e : Element T⦄ where
  -- the element that a call is about
  abbrev pub key : Op T → T
  key (add x) = x
  key (remove x) = x
  key (contains x) = x

  -- the section of a call
  abbrev pub section : Op T → Locked T → Locked T × Bool
  section (add x) c = Locked.insert x c
  section (remove x) c = Locked.remove x c
  section (contains x) c = (c, Locked.contains x c)

  -- what a section makes of its bucket, and of the count, where it writes them
  edit : Op T → List T → List T
  edit (add x) b = push_back b x
  edit (remove x) b = erase x b
  edit (contains x) b = b

  tally : Op T → ℕ → ℕ
  tally (add x) n = add_word n 1
  tally (remove x) n = sub_word n 1
  tally (contains x) n = n

  writes : Op T → List T → Bool
  writes (add x) b = not (has x b)
  writes (remove x) b = has x b
  writes (contains x) b = false

  answer : Op T → List T → Bool
  unfolding writes
  answer (add x) b = not (has x b)
  answer (remove x) b = has x b
  answer (contains x) b = has x b

  place : Op T → List T → Locked T → Locked T
  place o b c = record c {
    table = set c.table (Locked.bucket_index (key o) c) (edit o b);
    set_size = tally o c.set_size;
  }

  put : Op T → Locked T → Locked T
  put o c = place o (Locked.bucket (key o) c) c

  abbrev ran : Op T → List T → Locked T → Locked T × Bool
  ran o b c = if writes o b then (put o c, answer o b) else (c, answer o b)

  section_lem : (o : Op T) (c : Locked T) → section o c ≡ ran o (Locked.bucket (key o) c) c
  unfolding put place edit tally writes answer Locked.insert Locked.remove Locked.contains
      Locked.push Locked.drop Locked.count_up Locked.count_down
  section_lem (add x) c = ground arith
  section_lem (remove x) c = ground arith
  section_lem (contains x) c = refl

  tally-tally : (a b : Op T) (n : ℕ) → tally b (tally a n) ≡ tally a (tally b n)
  unfolding tally
  tally-tally (add x) (add y) n = refl
  tally-tally (add x) (remove y) n = omega arith
  tally-tally (remove x) (add y) n = omega arith
  tally-tally (remove x) (remove y) n = refl
  tally-tally (contains x) b n = refl
  tally-tally a (contains y) n = refl

  module _ (a b : Op T) (c : Locked T)
      (d : Locked.bucket_index (key a) c ≢ Locked.bucket_index (key b) c) where
    bucket-put : Locked.bucket (key b) (put a c) ≡ Locked.bucket (key b) c
    unfolding put place Locked.bucket Locked.bucket_index
    bucket-put = get_or-set_ne c.table _ _ _ [] d

    place-place : (v w : List T) → place b w (place a v c) ≡ place a v (place b w c)
    unfolding place Locked.bucket_index
    place-place v w = rw (set-set c.table _ _ (edit a v) (edit b w) d, tally-tally a b c.set_size)

    -- the second of two sections, after the first
    second : section b (section a c).0 ≡ ran b (Locked.bucket (key b) c) (section a c).0
    second = elim (Bool-cases (writes a (Locked.bucket (key a) c))) [
      | inl w ↦ rw (section_lem a c, w, section_lem b (put a c), bucket-put)
      | inr w ↦ rw (section_lem a c, w, section_lem b c)
    ]

  module _ (a b : Op T) (c : Locked T)
      (d : Locked.bucket_index (key a) c ≢ Locked.bucket_index (key b) c) where
    put-put : put b (put a c) ≡ put a (put b c)
    unfolding put
    put-put =
        ap (λ w. place b w (put a c)) (bucket-put a b c d)
        ∙ place-place a b c d (Locked.bucket (key a) c) (Locked.bucket (key b) c)
        ∙ sym (ap (λ v. place a v (put b c)) (bucket-put b a c (λ q. d (sym q))))

    both_orders :
        let (c₁, r) = section a c in
        let (c₂, q) = section b c in
        (section b c₁ ≡ ((section a c₂).0, q)) × (section a c₂ ≡ ((section b c₁).0, r))
    both_orders =
        let ab = second a b c d in
        let ba = second b a c (λ q. d (sym q)) in
        let A = Locked.bucket (key a) c in
        let B = Locked.bucket (key b) c in
        elim (Bool-cases (writes a A)) [
          | inl wa ↦ elim (Bool-cases (writes b B)) [
            | inl wb ↦
                rw (ab, ba, section_lem a c, section_lem b c, wa, wb)
                  (ap (λ t. (t, answer b B)) put-put, ap (λ t. (t, answer a A)) (sym put-put))
            | inr wb ↦ rw (ab, ba, section_lem a c, section_lem b c, wa, wb) (refl, refl)
          ]
          | inr wa ↦ elim (Bool-cases (writes b B)) [
            | inl wb ↦ rw (ab, ba, section_lem a c, section_lem b c, wa, wb) (refl, refl)
            | inr wb ↦ rw (ab, ba, section_lem a c, section_lem b c, wa, wb) (refl, refl)
          ]
        ]

  -- On a striped set with a whole number of buckets for each mutex, two sections of Add, Remove or
  -- Contains whose elements have different mutexes give the same answers and the same set in either
  -- order.
  pub section-section :
      (a b : Op T) (s : HashSetStriped T)
      → IsStriped s
      → mutex_index (key a) s ≢ mutex_index (key b) s
      → let (c₁, r) = section a s.core in
        let (c₂, q) = section b s.core in
        (section b c₁ ≡ ((section a c₂).0, q)) × (section a c₂ ≡ ((section b c₁).0, r))
  section-section a b s h d = both_orders a b s.core (other_bucket (key a) (key b) s h d)
