-- ===== src/BucketList/Machine.antt =====
-- The operations of src/BucketList.h by any number of threads, a shared access at a time: a load,
-- a compare-and-exchange or a test of a `next`, with the work on the thread's own data after it.
pub mod Threads
pub mod Invariant
pub mod Steps
pub mod Reachable
pub mod Linearizable
pub mod Alone
use concurrent_hash_sets.Base.{
  ℕ, ◌≤◌, ◌≡◌, Bool, true, false, not, ◌&&◌, ◌==◌, if◌then◌else◌, Option, none, some, List, [], ◌∷◌,
  update, length,
}
use concurrent_hash_sets.Element.{Element}
use concurrent_hash_sets.MarkableReference.{Address}
use concurrent_hash_sets.History.{Op, add, remove, contains, Event}
use concurrent_hash_sets.BucketList.Keys.{make_ordinary_key, make_sentinel_key}
use concurrent_hash_sets.BucketList.Heap.{
  Heap, null, root, Target, make_root, new_node, store_next, next_is, retire, matches, at_or_past,
}

-- The calls that use `Find`, with the local `node` of `Add` and of `SentinelFor`.
pub data Job (T : Type 0) : Type 0 where
  adding : T → Address → Job T
  removing : T → Job T
  placing : ℕ → Address → Job T  -- `SentinelFor`

-- Where a thread stands, with the local variables that are live there.
pub data Pc (T : Type 0) : Type 0 where
  idle : Pc T
  find_head : Job T → Address → Pc T  -- `find_retry`, with the head of the list
  find_next : Job T → (head pred curr : Address) → Pc T  -- before the load of `curr->next`
  unlinking : Job T → (head pred curr succ : Address) → Pc T  -- `curr` is marked
  linking : Job T → (head pred curr : Address) → Pc T  -- `node->next` is set
  found : T → (head pred curr : Address) → Pc T  -- `Remove`, before the load of `curr->next`
  marking : T → (head pred curr succ : Address) → Pc T  -- before `AttemptMark`
  dropping : T → (pred curr succ : Address) → Pc T  -- `Remove`, once `curr` is marked
  looking : T → Address → Pc T  -- `Contains`, before the load of `curr->next`
  checking : T → Address → Pc T  -- `Contains`, before `IsMarked`
  returning : Op T → Bool → Pc T
  placed : ℕ → Address → Pc T  -- `SentinelFor` returns

-- The memory, the threads, and the sentinels that threads have been given. No step reads the rest:
-- the calls that changed the set, the latest first, and how many there were when a thread's call
-- began.
pub record System (T : Type 0) : Type 0 where
  pub heap : Heap T
  pub pc : ℕ → Pc T
  pub given : Address → Bool
  pub events : List (Event T)
  pub began : ℕ → ℕ

module _ {T : Type 0} where
  abbrev pub goto : ℕ → Pc T → System T → System T
  goto i p s = record s { pc = update s.pc i p }

  abbrev pub took_effect : ℕ → Op T → System T → System T
  took_effect i op s = record s {
    events = record { thread = i; op = op; answer = true } ∷ s.events;
  }

  abbrev pub with_heap : Heap T → System T → System T
  with_heap h s = record s { heap = h }

  module _ ⦃e : Element T⦄ where
    -- the arguments of `Find`
    unfoldable pub target : Job T → Target T
    target (adding x node) = record { key = make_ordinary_key x; elem = some x }
    target (removing x) = record { key = make_ordinary_key x; elem = some x }
    target (placing index node) = record { key = make_sentinel_key index; elem = none }

    -- `Contains` at a node that it has come to
    unfoldable pub look : ℕ → T → Address → System T → System T
    look i x curr s =
        let t = target (removing x) in
        if at_or_past curr t s.heap
        then (if matches curr t s.heap
            then goto i (checking x curr) s
            else goto i (returning (contains x) false) s)
        else goto i (looking x curr) s

    -- the new node is in the list
    abbrev pub linked : ℕ → Job T → Address → System T → System T
    linked i (adding x node) pred s =
        took_effect i (add x)
          (goto i (returning (add x) true) (with_heap (store_next pred node false s.heap) s))
    linked i (removing x) pred s = s
    linked i (placing index node) pred s =
        goto i (placed index node) (with_heap (store_next pred node false s.heap) s)

    module _ (blank : T) where
      -- what a call does with the window that `Find` returns
      unfoldable pub at_window : ℕ → Job T → (head pred curr : Address) → Bool → System T → System T
      at_window i (adding x node) head pred curr true s = goto i (returning (add x) false) s
      at_window i (adding x node) head pred curr false s =
          if node == null
          then goto i (linking (adding x s.heap.allocated) head pred curr)
              (with_heap (new_node x (make_ordinary_key x) curr s.heap) s)
          else goto i (linking (adding x node) head pred curr)
              (with_heap (store_next node curr false s.heap) s)
      at_window i (removing x) head pred curr true s = goto i (found x head pred curr) s
      at_window i (removing x) head pred curr false s = goto i (returning (remove x) false) s
      at_window i (placing index node) head pred curr true s = goto i (placed index curr) s
      at_window i (placing index node) head pred curr false s =
          if node == null
          then goto i (linking (placing index s.heap.allocated) head pred curr)
              (with_heap (new_node blank (make_sentinel_key index) curr s.heap) s)
          else goto i (linking (placing index node) head pred curr)
              (with_heap (store_next node curr false s.heap) s)

      -- `Find` with `succ` and `marked` loaded from `curr->next`
      unfoldable pub at_next :
          ℕ → Job T → (head pred curr succ : Address) → Bool → System T → System T
      at_next i job head pred curr succ true s = goto i (unlinking job head pred curr succ) s
      at_next i job head pred curr succ false s =
          if at_or_past curr (target job) s.heap
          then at_window i job head pred curr (matches curr (target job) s.heap) s
          else goto i (find_next job head curr succ) s

      -- the next shared access of a thread
      unfoldable pub advance : ℕ → Pc T → System T → System T
      advance i idle s = s
      advance i (find_head job head) s = goto i (find_next job head head (s.heap.ref head)) s
      advance i (find_next job head pred curr) s =
          at_next i job head pred curr (s.heap.ref curr) (s.heap.marked curr) s
      advance i (unlinking job head pred curr succ) s =
          if next_is pred curr s.heap
          then goto i (find_next job head pred succ)
              (with_heap (retire curr (store_next pred succ false s.heap)) s)
          else goto i (find_head job head) s
      advance i (linking job head pred curr) s =
          if next_is pred curr s.heap then linked i job pred s else goto i (find_head job head) s
      advance i (found x head pred curr) s = goto i (marking x head pred curr (s.heap.ref curr)) s
      advance i (marking x head pred curr succ) s =
          if next_is curr succ s.heap
          then took_effect i (remove x)
              (goto i (dropping x pred curr succ) (with_heap (store_next curr succ true s.heap) s))
          else goto i (find_head (removing x) head) s
      advance i (dropping x pred curr succ) s =
          if next_is pred curr s.heap
          then goto i (returning (remove x) true)
              (with_heap (retire curr (store_next pred succ false s.heap)) s)
          else goto i (returning (remove x) true) s
      advance i (looking x curr) s = look i x (s.heap.ref curr) s
      advance i (checking x curr) s = goto i (returning (contains x) (not (s.heap.marked curr))) s
      advance i (returning op b) s = goto i idle s
      advance i (placed index sentinel) s =
          goto i idle (record s { given = update s.given sentinel true })

    abbrev pub begun : ℕ → System T → System T
    begun i s = record s { began = update s.began i (length s.events) }

    -- `SentinelFor` up to its first shared access
    abbrev pub place : ℕ → ℕ → Address → System T → System T
    place i index head s =
        if s.heap.key head == make_sentinel_key index
        then goto i (placed index head) s
        else goto i (find_head (placing index null) head) s

-- a list that `MakeRoot` has made
abbrev pub initial : {T : Type 0} → T → System T
initial blank = record {
  heap = make_root blank;
  pc = λ i. idle;
  given = update (λ a. false) root true;
  events = [];
  began = λ i. 0;
}

-- The states that threads can reach in any order. A call is made on a list of `FromSentinel`, for a
-- sentinel that a thread has been given and whose key is not past the one looked for.
pub data Reach {T : Type 0} ⦃e : Element T⦄ (blank : T) : System T → Type 0 where
  start : Reach blank (initial blank)
  call_add :
      {s : System T} (i : ℕ) (x : T) (head : Address)
      → Reach blank s
      → s.pc i ≡ idle
      → s.given head ≡ true
      → s.heap.key head ≤ make_ordinary_key x
      → Reach blank (goto i (find_head (adding x null) head) (begun i s))
  call_remove :
      {s : System T} (i : ℕ) (x : T) (head : Address)
      → Reach blank s
      → s.pc i ≡ idle
      → s.given head ≡ true
      → s.heap.key head ≤ make_ordinary_key x
      → Reach blank (goto i (find_head (removing x) head) (begun i s))
  call_contains :
      {s : System T} (i : ℕ) (x : T) (head : Address)
      → Reach blank s
      → s.pc i ≡ idle
      → s.given head ≡ true
      → s.heap.key head ≤ make_ordinary_key x
      → Reach blank (look i x head (begun i s))
  call_sentinel_for :
      {s : System T} (i index : ℕ) (head : Address)
      → Reach blank s
      → s.pc i ≡ idle
      → s.given head ≡ true
      → s.heap.key head ≤ make_sentinel_key index
      → Reach blank (place i index head (begun i s))
  later : {s : System T} (i : ℕ) → Reach blank s → Reach blank (advance blank i (s.pc i) s)
