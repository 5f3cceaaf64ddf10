-- ===== src/Epoch/Threads/Kept.antt =====
-- The bags of src/EpochReclaimer.h keep what has been retired since a thread entered its guard, if
-- every thread announces the epoch that is current then.
pub mod Safety
use mathlib.Core.Path.{subst}
use concurrent_hash_sets.Base.{
  ℕ, suc, ◌+◌, ◌-◌, ◌%◌, ◌≤◌, ◌<◌, ◌≡◌, ◌≢◌, ◌⊎◌, inl, inr, refl, sym, ◌∙◌, ap, Bool, true, false,
  not, ◌&&◌, ◌==◌, if◌then◌else◌, List, [], ◌∷◌, ◌++◌, update, update_self, update_ne, ℕ_discrete,
  Bool-cases, ==→ne, leb, arith,
}
use concurrent_hash_sets.Element.{word}
use concurrent_hash_sets.Word.{add_word}
use concurrent_hash_sets.MarkableReference.{Address}
use concurrent_hash_sets.Epoch.{
  Participant, inactive, new_participant, collect_bag, collect_garbage, enter, leave, renew_bag,
  retire_node, count_retire, retires_per_advance,
}
use concurrent_hash_sets.Epoch.Threads.{
  Pc, outside, entering, inside, advancing, glancing, fencing, fenced, scanning, releasing, System,
  goto, initial, In, first, rest, lags, with_slot, Retired, retire, Step, adopt, begin, announce,
  hand_over, end, load_epoch, glance, give_up, glanced, taken, take, fence_fails, fence, scan,
  scan_fails, swap, swap_fails, release, Reach, start, later, guarded,
}
use concurrent_hash_sets.Epoch.Threads.Clock
use concurrent_hash_sets.Epoch.Threads.Clock.{Inv, Step-Inv}

pub In-append : {A : Type 0} (a : A) (xs ys : List A) → In a xs → In a (xs ++ ys)
In-append a [] ys n = elim n [ ]
In-append a (x ∷ xs) ys first = first
In-append a (x ∷ xs) ys (rest n) = rest (In-append a xs ys n)

pub In-last : {A : Type 0} (a : A) (xs : List A) → In a (xs ++ (a ∷ []))
In-last a [] = first
In-last a (x ∷ xs) = rest (In-last a xs)

-- In its bag, under its epoch.
abbrev pub Holds : Participant → ℕ → Address → Type 0
Holds p tag x = (p.bag_epochs (tag % 3) ≡ tag) × In x (p.bags (tag % 3))

collect_bag-Holds :
    (now index tag : ℕ) (x : Address) (p : Participant)
    → now < tag + 2
    → tag + 2 < word
    → Holds p tag x
    → Holds (collect_bag now index p) tag x
unfolding collect_bag
collect_bag-Holds now index tag x p l m (q, n) = elim (ℕ_discrete (p.bag_epochs index) tag) [
  | yes z ↦
      let kept : (not (p.bag_epochs index == inactive) && leb (add_word (p.bag_epochs index) 2) now)
          ≡ false =
        ground (arith, z, l, m) in
      rw kept (q, n)
  | no z ↦
      elim (Bool-cases
        (not (p.bag_epochs index == inactive) && leb (add_word (p.bag_epochs index) 2) now)) [
          | inr kept ↦ rw kept (q, n)
          | inl freed ↦
              let other : index ≢ tag % 3 = λ e. z (ap p.bag_epochs e ∙ q) in
              rw
                (
                  freed,
                  update_ne p.bag_epochs index (tag % 3) inactive other,
                  update_ne p.bags index (tag % 3) [] other,
                )
                (q, n)
        ]
]

pub enter-Holds :
    (now tag : ℕ) (x : Address) (p : Participant)
    → now < tag + 2
    → tag + 2 < word
    → Holds p tag x
    → Holds (enter now p) tag x
unfolding enter collect_garbage
enter-Holds now tag x p l m h = elim (Bool-cases (now == p.announced)) [
  | inl same ↦ rw same h
  | inr other ↦ rw other (
      collect_bag-Holds now 2 tag x _ l m
        (collect_bag-Holds now 1 tag x _ l m (collect_bag-Holds now 0 tag x p l m h)))
]

renew_bag-Holds :
    (tag : ℕ) (x : Address) (p : Participant)
    → tag ≤ suc p.announced
    → p.announced < tag + 2
    → p.announced + 2 < word
    → Holds p tag x
    → Holds (renew_bag p) tag x
unfolding renew_bag
renew_bag-Holds tag x p l m b (q, n) =
    let up : add_word p.announced 1 ≡ suc p.announced = omega arith in
    elim (Bool-cases (p.bag_epochs (add_word p.announced 1 % 3) == add_word p.announced 1)) [
      | inl same ↦ rw same (q, n)
      | inr new ↦
          let other : add_word p.announced 1 % 3 ≢ tag % 3 = λ e.
            let is : p.bag_epochs (add_word p.announced 1 % 3) ≡ tag = ap p.bag_epochs e ∙ q in
            omega (arith, e, up, ==→ne _ _ new, is) in
          rw
            (
              new,
              update_ne p.bag_epochs _ (tag % 3) (add_word p.announced 1) other,
              update_ne p.bags _ (tag % 3) [] other,
            )
            (q, n)
    ]

announced-renew_bag : (p : Participant) → (renew_bag p).announced ≡ p.announced
unfolding renew_bag
announced-renew_bag p = ground arith

renewed :
    (p : Participant)
    → (renew_bag p).bag_epochs (add_word p.announced 1 % 3) ≡ add_word p.announced 1
unfolding renew_bag
renewed p = ground arith

counted : (q : Participant) (tag : ℕ) (x : Address) → Holds q tag x → Holds (count_retire q).0 tag x
unfolding count_retire
counted q tag x h = elim (Bool-cases (add_word q.retires 1 == retires_per_advance)) [
  | inl full ↦ rw full h
  | inr room ↦ rw room h
]

-- a node put at the end of a bag
appended :
    (bags : ℕ → List Address) (index k : ℕ) (x y : Address)
    → In x (bags k)
    → In x (update bags index (bags index ++ (y ∷ [])) k)
appended bags index k x y n = elim (ℕ_discrete index k) [
  | yes z ↦
      rw (← z, update_self bags index (bags index ++ (y ∷ [])))
        (In-append x (bags index) (y ∷ []) (subst (λ a. In x (bags a)) (sym z) n))
  | no z ↦ rw (update_ne bags index k (bags index ++ (y ∷ [])) z) n
]

pub retire_node-Holds :
    (tag : ℕ) (x y : Address) (p : Participant)
    → tag ≤ suc p.announced
    → p.announced < tag + 2
    → p.announced + 2 < word
    → Holds p tag x
    → Holds (count_retire (retire_node y p)).0 tag x
unfolding retire_node
retire_node-Holds tag x y p l m b h =
    let (q, n) = renew_bag-Holds tag x p l m b h in
    counted (retire_node y p) tag x (q, appended (renew_bag p).bags _ (tag % 3) x y n)

pub retire_node-new :
    (y : Address) (p : Participant)
    → Holds (count_retire (retire_node y p)).0 (add_word p.announced 1) y
unfolding retire_node
retire_node-new y p =
    let index = add_word p.announced 1 % 3 in
    let r = renew_bag p in
    counted (retire_node y p) (add_word p.announced 1) y (
      renewed p,
      rw (update_self r.bags index (r.bags index ++ (y ∷ []))) (In-last y (r.bags index)),
    )

pub announced-retire_node :
    (y : Address) (p : Participant) → (count_retire (retire_node y p)).0.announced ≡ p.announced
unfolding count_retire retire_node renew_bag
announced-retire_node y p = ground arith

pub announced-collect_bag :
    (now k : ℕ) (p : Participant) → (collect_bag now k p).announced ≡ p.announced
unfolding collect_bag
announced-collect_bag now k p = ground arith

-- every thread announces the epoch that is current then
abbrev pub Prompt : ℕ → ℕ → Type 0
Prompt e g = e ≡ g

-- `r` is in a bag that is not to be emptied before thread `j` leaves.
pub record Safe (s : System) (j : ℕ) (r : Retired) : Type 0 where
  pub young : s.entry j ≤ r.tag
  pub tagged : r.tag ≤ suc (s.slot r.owner).announced
  pub kept : Holds (s.slot r.owner) r.tag r.node

pub record Keeps (s : System) : Type 0 where
  pub clock : Inv s
  pub current : (i : ℕ) → guarded (s.pc i) ≡ true → (s.slot i).announced ≡ s.entry i
  pub past : (i : ℕ) → (s.slot i).announced ≤ s.epoch
  pub waits : (i e : ℕ) → s.pc i ≡ entering e → (s.slot i).announced ≤ e
  pub safe : (j : ℕ) (r : Retired) → guarded (s.pc j) ≡ true → In r (s.since j) → Safe s j r

pub entering-injective : (a b : ℕ) → entering a ≡ entering b → a ≡ b
entering-injective a b q = cc q

module _ {s : System} (k : Keeps s) (i : ℕ) where
  -- A step that changes only where a thread stands.
  pub stand :
      (c : Pc) (b : Bool)
      → Inv (record s { pc = update s.pc i c; busy = b })
      → guarded (s.pc i) ≡ guarded c
      → ((e : ℕ) → c ≡ entering e → (s.slot i).announced ≤ e)
      → Keeps (record s { pc = update s.pc i c; busy = b })
  stand c b clock q w = record {
    clock = clock;
    current = λ j r. k.current j (ground (arith, q, r));
    past = k.past;
    waits = λ j e r. elim (ℕ_discrete i j) [
      | yes z ↦ rw (← z) (w e (sym (update_self s.pc i c) ∙ (rw (← z) at r)))
      | no z ↦ k.waits j e (sym (update_ne s.pc i j c z) ∙ r)
    ];
    safe = λ j r q' n.
        let o = k.safe j r (ground (arith, q, q')) n in
        record { young = o.young; tagged = o.tagged; kept = o.kept };
  }
