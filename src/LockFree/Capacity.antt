-- ===== src/LockFree/Capacity.antt =====
-- The constructor's checks and the resizing of src/HashSetLockFree.h.
use Prim.Native.Nat.{bit_and}
use native.Mathlib.Nat.{pow-suc, pow-le-pow_right}
use concurrent_hash_sets.Base.{
  ℕ, suc, ◌-◌, ◌*◌, ◌/◌, ◌%◌, ◌^◌, ◌≤◌, ◌<◌, ◌≡◌, ◌↔◌, sym, ◌∙◌, ap, inl, inr, true, false, not,
  ◌&&◌, ◌==◌, ==_iff, ltb, ltb→lt, ltb→le, le→ltb, Bool-cases, arith, dec_lt,
}
use concurrent_hash_sets.Element.{word}
use concurrent_hash_sets.Outcome.{returns}
use concurrent_hash_sets.Word.{sub_word}
use concurrent_hash_sets.Bits.Powers.{and-pred_iff}
use concurrent_hash_sets.LockFree.{more_bits, max_buckets, check_capacities, resize_if_necessary}

-- a power of two from 2 to `max_capacity`
pub record IsCapacity (max_capacity capacity : ℕ) : Type 0 where
  pub exponent : ℕ
  pub power : capacity ≡ 2 ^ exponent
  pub at_least_two : 2 ≤ capacity
  pub bounded : capacity ≤ max_capacity

-- what the set's `max_capacity_` may be
pub record IsMaximum (max_capacity : ℕ) : Type 0 where
  pub exponent : ℕ
  pub power : max_capacity ≡ 2 ^ exponent
  pub bounded : max_capacity ≤ max_buckets

more_bits_iff : (n : ℕ) → 0 < n → n < word → (more_bits n ≡ false) ↔ ((k : ℕ) × (n ≡ 2 ^ k))
more_bits_iff n pos h =
    let same : bit_and (sub_word n 1) n ≡ bit_and (n - 1) n =
      let e : sub_word n 1 ≡ n - 1 = omega arith in ap (λ (t : ℕ). bit_and t n) e in
    (
      λ q. (and-pred_iff n pos).0 (sym same ∙ (==_iff _ 0).0 (ground (arith, q))),
      λ p.
          let z : (bit_and (sub_word n 1) n == 0) ≡ true =
            (==_iff _ 0).1 (same ∙ (and-pred_iff n pos).1 p) in
          ap not z,
    )

-- The constructor of the lock-free set, on capacities in a word, passes its checks exactly if the
-- maximal capacity is a power of two up to 2 ^ 62 and the initial capacity is a power of two from 2
-- up to the maximal one.
pub check_capacities_iff :
    (initial_capacity max_capacity : ℕ)
    → initial_capacity < word
    → max_capacity < word
    → (check_capacities initial_capacity max_capacity ≡ returns tt)
      ↔ (IsCapacity max_capacity initial_capacity × IsMaximum max_capacity)
unfolding check_capacities
check_capacities_iff i m hi hm = (accepted, passes)
  where
    accepted : check_capacities i m ≡ returns tt → IsCapacity m i × IsMaximum m
    accepted q =
        let a : ltb i 2 ≡ false = ground arith in
        let b : more_bits i ≡ false = ground arith in
        let c : more_bits m ≡ false = ground arith in
        let d : ltb m i ≡ false = ground arith in
        let f : ltb max_buckets m ≡ false = ground arith in
        let (j, p) = (more_bits_iff i (omega (arith, ltb→le i 2 a)) hi).0 b in
        let (k, r) = (more_bits_iff m (omega (arith, ltb→le i 2 a, ltb→le m i d)) hm).0 c in
        (
          record { exponent = j; power = p; at_least_two = ltb→le i 2 a; bounded = ltb→le m i d },
          record { exponent = k; power = r; bounded = ltb→le max_buckets m f },
        )

    passes : IsCapacity m i × IsMaximum m → check_capacities i m ≡ returns tt
    passes (c, x) =
        let b = (more_bits_iff i (omega (arith, c.at_least_two)) hi).1 (c.exponent, c.power) in
        let d =
          (more_bits_iff m (omega (arith, c.at_least_two, c.bounded)) hm).1 (x.exponent, x.power) in
        rw (
          check_capacities,
          le→ltb i 2 c.at_least_two,
          b,
          d,
          le→ltb m i c.bounded,
          le→ltb max_buckets m x.bounded,
        )

double_below : (c m j k : ℕ) → c ≡ 2 ^ j → m ≡ 2 ^ k → c < m → 2 * c ≤ m
double_below c m j k p r h = elim (dec_lt j k) [
  | yes q ↦
      omega (
        arith,
        pow-suc 2 j,
        pow-le-pow_right {n = 2} (omega arith) {i = suc j} {j = k} (omega arith),
      )
  | no q ↦
      absurd (omega (arith, pow-le-pow_right {n = 2} (omega arith) {i = k} {j = j} (omega arith)))
]

-- ResizeIfNecessary keeps the capacity a power of two from 2 up to the maximal one, which is a
-- power of two up to 2 ^ 62, and never makes it smaller, whatever capacity and size it loaded and
-- whatever the capacity is by then.
pub resize_if_necessary-IsCapacity :
    (max_capacity capacity set_size now : ℕ)
    → IsMaximum max_capacity
    → IsCapacity max_capacity now
    → let after = resize_if_necessary max_capacity capacity set_size now in
      IsCapacity max_capacity after × (now ≤ after)
unfolding resize_if_necessary
resize_if_necessary-IsCapacity m c n now x v =
    elim (Bool-cases (ltb c m && ltb (c * 3 % word / 4) n)) [
      | inr keep ↦ rw (resize_if_necessary, keep) (v, omega arith)
      | inl grow ↦ elim (Bool-cases (now == c)) [
        | inr lost ↦ rw (resize_if_necessary, grow, lost) (v, omega arith)
        | inl won ↦
            let same : now ≡ c = (==_iff now c).0 won in
            let below : c < m = ltb→lt c m (ground arith) in
            let room = double_below now m v.exponent x.exponent v.power x.power (omega arith) in
            let twice : c * 2 % word ≡ now * 2 = omega (arith, x.bounded) in
            rw (resize_if_necessary, grow, won, twice)
              (
                record {
                  exponent = suc v.exponent;
                  power = omega (arith, pow-suc 2 v.exponent, v.power);
                  at_least_two = omega (arith, v.at_least_two);
                  bounded = omega (arith, room);
                },
                omega arith,
              )
      ]
    ]
