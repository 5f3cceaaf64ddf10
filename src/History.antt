-- ===== src/History.antt =====
-- The abstract set that the concurrent ones are measured by: its operations, one at a time, and
-- the sequential histories that it allows.
use mathlib.Core.Path.{fun_ext, subst}
use concurrent_hash_sets.Base.{
  ℕ, ◌≡◌, ◌≢◌, sym, refl, Bool, true, false, not, List, [], ◌∷◌, Option, none, some, ite,
  ℕ_discrete, arith,
}

-- the calls of src/HashSetBase.h that read or change the contents
pub data Op (T : Type 0) : Type 0 where
  add remove contains : T → Op T

-- what a set contains
abbrev pub Contents : Type 0 → Type 0
Contents T = T → Bool

-- What a call does, and what it answers: `Add` whether the element was absent, the other two
-- whether it was present.
abbrev pub Legal : {T : Type 0} → Op T → Bool → Contents T → Contents T → Type 0
Legal {T} (add x) b before after =
    (b ≡ not (before x)) × (after x ≡ true) × ((y : T) → x ≢ y → after y ≡ before y)
Legal {T} (remove x) b before after =
    (b ≡ before x) × (after x ≡ false) × ((y : T) → x ≢ y → after y ≡ before y)
Legal {T} (contains x) b before after = (b ≡ before x) × ((y : T) → after y ≡ before y)

-- the effect of a call by a thread, with its answer
pub record Event (T : Type 0) : Type 0 where
  pub thread : ℕ
  pub op : Op T
  pub answer : Bool

-- what a step of the program may do: nothing that shows, or one call's effect at once
pub data Label (T : Type 0) : Type 0 where
  silent : Label T
  did : Op T → Bool → Label T

abbrev pub Explains : {T : Type 0} → Label T → Contents T → Contents T → Type 0
Explains {T} silent before after = (y : T) → after y ≡ before y
Explains (did op b) before after = Legal op b before after

-- the events so far, the latest first
abbrev pub record_event : {T : Type 0} → ℕ → Label T → List (Event T) → List (Event T)
record_event i silent h = h
record_event i (did op b) h = record { thread = i; op = op; answer = b } ∷ h

-- A history that the abstract set allows, from its first contents to its last.
pub data Allowed {T : Type 0} (first : Contents T) : List (Event T) → Contents T → Type 0 where
  start : Allowed first [] first
  next :
      {h : List (Event T)} {a b : Contents T} (e : Event T)
      → Allowed first h a
      → Legal e.op e.answer a b
      → Allowed first (e ∷ h) b

pub extend :
    {T : Type 0} {first a b : Contents T} {h : List (Event T)} (i : ℕ) (l : Label T)
    → Allowed first h a
    → Explains l a b
    → Allowed first (record_event i l h) b
extend i silent r same = subst (Allowed _ _) (fun_ext (λ y. sym (same y))) r
extend i (did op b) r legal = next (record { thread = i; op = op; answer = b }) r legal

-- the latest event of a thread
pub latest : {T : Type 0} → ℕ → List (Event T) → Option (Op T × Bool)
latest i [] = none
latest i (e ∷ h) = ite (ℕ_discrete e.thread i) (some (e.op, e.answer)) (latest i h)

pub latest_self :
    {T : Type 0} (i : ℕ) (op : Op T) (b : Bool) (h : List (Event T))
    → latest i (record_event i (did op b) h) ≡ some (op, b)
unfolding latest
latest_self i op b h = ground arith

pub latest_ne :
    {T : Type 0} (i j : ℕ) (l : Label T) (h : List (Event T))
    → i ≢ j
    → latest j (record_event i l h) ≡ latest j h
unfolding latest
latest_ne i j silent h d = refl
latest_ne i j (did op b) h d = ground arith
