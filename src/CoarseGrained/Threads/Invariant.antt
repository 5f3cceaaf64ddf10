-- ===== src/CoarseGrained/Threads/Invariant.antt =====
-- Who holds the mutex, what the set is between the steps, and what each thread has decided.
use concurrent_hash_sets.Base.{ℕ, ◌≡◌, refl, sym, ◌∙◌, Bool, true, false, Option, none, some, List}
use concurrent_hash_sets.Element.{Element}
use concurrent_hash_sets.Outcome.{Allocator, Outcome, returns, throws, then_return}
use concurrent_hash_sets.History.{
  Op, add, remove, contains, Label, silent, did, Event, record_event, latest, latest_self,
}
use concurrent_hash_sets.Locked.{Locked}
use concurrent_hash_sets.Locked.Laws.{IsValid}
use concurrent_hash_sets.CoarseGrained.Threads.{
  Pc, idle, entering, locked, adding, removing, push_failed, pushed, dropped, unlocking,
  policy_capacity, policy_size, resizing, resize_locked, built, rehashed, resize_unlocking,
  returning, after_section, Outside, call, load_capacity, under, over, return, Acquires,
  lock_section, lock_resize, Releases, unlock_section, unlock_failed, unlock_resize, Inside, found,
  absent, no_room, push, count_up, missing, present, drop, count_down, look, already, no_memory,
  build, stopped, replace_table, store_capacity, System,
}
use concurrent_hash_sets.CoarseGrained.Threads.Sections.{settle, Knows}

module _ {T : Type 0} where
  -- between the constructor and the destructor of a `scoped_lock`
  abbrev pub holds : Pc T → Bool
  holds (locked op) = true
  holds (adding x) = true
  holds (removing x) = true
  holds (push_failed x) = true
  holds (pushed x) = true
  holds (dropped x) = true
  holds (unlocking op b) = true
  holds (resize_locked x) = true
  holds (built x n fresh) = true
  holds (rehashed x n) = true
  holds (resize_unlocking x o) = true
  holds _ = false

  -- the call of a thread with its answer, once that is settled; an `Add` that throws has none
  abbrev pub decided : Pc T → Option (Op T × Bool)
  decided idle = none
  decided (entering op) = none
  decided (locked op) = none
  decided (adding x) = none
  decided (removing x) = none
  decided (push_failed x) = none
  decided (pushed x) = some (add x, true)
  decided (dropped x) = some (remove x, true)
  decided (unlocking op b) = some (op, b)
  decided (returning op (returns b)) = some (op, b)
  decided (returning op (throws c)) = none
  decided (policy_capacity x) = some (add x, true)
  decided (policy_size x n) = some (add x, true)
  decided (resizing x) = some (add x, true)
  decided (resize_locked x) = some (add x, true)
  decided (built x n fresh) = some (add x, true)
  decided (rehashed x n) = some (add x, true)
  decided (resize_unlocking x o) = some (add x, true)

module _ {T : Type 0} ⦃e : Element T⦄ where
  unfoldable pub current_of : Option ℕ → (ℕ → Pc T) → Locked T → Locked T
  current_of none pc c = c
  current_of (some i) pc c = settle (pc i) c

  -- The set as the thread that holds the mutex will leave it.
  unfoldable pub current : System T → Locked T
  unfolding current_of
  current s = current_of s.owner s.pc s.core

  pub record Inv (h : List (Event T)) (s : System T) : Type 0 where
    pub owns : (i : ℕ) → holds (s.pc i) ≡ true → s.owner ≡ some i
    pub held : (i : ℕ) → s.owner ≡ some i → holds (s.pc i) ≡ true
    pub valid : IsValid (current s)
    pub knows : (i : ℕ) → Knows (s.pc i) s.core
    pub answered : (i : ℕ) (r : Op T × Bool) → decided (s.pc i) ≡ some r → latest i h ≡ some r

  -- What a thread that goes from `p` to `p'` changes besides the shared members.
  pub record Turn (l : Label T) (p p' : Pc T) (from to : Bool) : Type 0 where
    pub before : holds p ≡ from
    pub after : holds p' ≡ to
    pub answer :
        (h : List (Event T)) (i : ℕ)
        → ((r : Op T × Bool) → decided p ≡ some r → latest i h ≡ some r)
        → (r : Op T × Bool) → decided p' ≡ some r
        → latest i (record_event i l h) ≡ some r

  turn :
      {p p' : Pc T} {a b : Bool}
      → holds p ≡ a
      → holds p' ≡ b
      → decided p ≡ decided p'
      → Turn silent p p' a b
  turn f t same = record { before = f; after = t; answer = λ h i old r q. old r (same ∙ q) }

  event :
      {p p' : Pc T} (op : Op T) (b : Bool)
      → holds p ≡ true
      → holds p' ≡ true
      → decided p' ≡ some (op, b)
      → Turn (did op b) p p' true true
  event op b f t d = record {
    before = f;
    after = t;
    answer = λ h i old r q. latest_self i op b h ∙ sym d ∙ q;
  }

  pub Outside-Turn : {c : Locked T} {p p' : Pc T} → Outside c p p' → Turn silent p p' false false
  Outside-Turn (call op) = turn refl refl refl
  Outside-Turn load_capacity = turn refl refl refl
  Outside-Turn (under h) = turn refl refl refl
  Outside-Turn (over h) = turn refl refl refl
  Outside-Turn return = record { before = refl; after = refl; answer = λ h i old r q. cc }

  pub Acquires-Turn : {p p' : Pc T} → Acquires p p' → Turn silent p p' false true
  Acquires-Turn lock_section = turn refl refl refl
  Acquires-Turn lock_resize = turn refl refl refl

  after-Turn : (op : Op T) (b : Bool) → Turn silent (unlocking op b) (after_section op b) true false
  after-Turn (add x) true = turn refl refl refl
  after-Turn (add x) false = turn refl refl refl
  after-Turn (remove x) b = turn refl refl refl
  after-Turn (contains x) b = turn refl refl refl

  resize-Turn :
      (x : T) (o : Outcome (Unit {0}))
      → Turn silent
          (resize_unlocking x o)
          (returning (add x) (then_return (tt, o) true).1)
          true
          false
  resize-Turn x (returns u) = turn refl refl refl
  resize-Turn x (throws c) = record { before = refl; after = refl; answer = λ h i old r q. cc }

  pub Releases-Turn : {p p' : Pc T} → Releases p p' → Turn silent p p' true false
  Releases-Turn (unlock_section {op} {b}) = after-Turn op b
  Releases-Turn unlock_failed = turn refl refl refl
  Releases-Turn (unlock_resize {x} {o}) = resize-Turn x o

  pub Inside-Turn :
      {mem : Allocator} {c c' : Locked T} {p p' : Pc T} {l : Label T}
      → Inside mem c p l c' p'
      → Turn l p p' true true
  Inside-Turn (found {x} h) = event (add x) false refl refl refl
  Inside-Turn (absent h) = turn refl refl refl
  Inside-Turn (no_room f) = turn refl refl refl
  Inside-Turn (push {x} f) = event (add x) true refl refl refl
  Inside-Turn count_up = turn refl refl refl
  Inside-Turn (missing {x} h) = event (remove x) false refl refl refl
  Inside-Turn (present h) = turn refl refl refl
  Inside-Turn (drop {x}) = event (remove x) true refl refl refl
  Inside-Turn count_down = turn refl refl refl
  Inside-Turn (look {x}) = event (contains x) _ refl refl refl
  Inside-Turn (already h) = turn refl refl refl
  Inside-Turn (no_memory h f) = turn refl refl refl
  Inside-Turn (stopped h f some_left) = turn refl refl refl
  Inside-Turn (build h f all) = turn refl refl refl
  Inside-Turn replace_table = turn refl refl refl
  Inside-Turn store_capacity = turn refl refl refl
