-- ===== src/BucketList/Machine/Alone.antt =====
-- The operations of src/BucketList.h when no other thread comes in between: from where the end of
-- the call is near.
pub mod Finds
pub mod Looks
pub mod Ends
use concurrent_hash_sets.Base.{
  ℕ, suc, zero, ◌+◌, ◌≤◌, ◌<◌, ◌≡◌, ◌≢◌, ◌⊎◌, inl, inr, refl, sym, ◌∙◌, ap, Bool, true, false, not,
  ◌==◌, ==→ne, arith, Bool-cases, update, update_self,
}
use concurrent_hash_sets.Element.{Element}
use concurrent_hash_sets.MarkableReference.{Address}
use concurrent_hash_sets.History.{Op, add, remove, contains}
use concurrent_hash_sets.BucketList.Keys.{make_ordinary_key, tail_key}
use concurrent_hash_sets.BucketList.Keys.Order.{make_ordinary_key-lt}
use concurrent_hash_sets.BucketList.Heap.{
  Heap, null, tail, Target, matches, at_or_past, next_is, new_node, store_next, retire,
}
use concurrent_hash_sets.BucketList.Order.{Ordered, not_past}
use concurrent_hash_sets.BucketList.Order.Unlink.{Ordered_unlink}
use concurrent_hash_sets.BucketList.World.{sought}
use concurrent_hash_sets.BucketList.Machine.{
  Job, adding, removing, placing, Pc, idle, find_head, find_next, unlinking, linking, found,
  marking, dropping, looking, checking, returning, placed, System, goto, with_heap, linked, look,
  target, at_window, at_next, advance, Reach,
}
use concurrent_hash_sets.BucketList.Machine.Threads.{
  job_node, inserts, Knows, target-lt, Before-inner, Start-Before,
}
use concurrent_hash_sets.BucketList.Machine.Invariant.{Inv}
use concurrent_hash_sets.BucketList.Machine.Steps.{known, next_is_sound}
use concurrent_hash_sets.BucketList.Machine.Steps.Advance.{advance-Inv}
use concurrent_hash_sets.BucketList.Machine.Reachable.{Reach-Inv}

module _ {T : Type 0} ⦃e : Element T⦄ (blank : T) (i : ℕ) where
  -- `n` steps of thread `i`
  unfoldable pub run_alone : ℕ → System T → System T
  run_alone zero s = s
  run_alone (suc n) s = run_alone n (advance blank i (s.pc i) s)

  -- Alone, the thread comes to the end of its call.
  pub record Finishes (s : System T) : Type 0 where
    pub steps : ℕ
    pub ends : (run_alone steps s).pc i ≡ idle

  pub step : {s : System T} (c : Pc T) → s.pc i ≡ c → Finishes (advance blank i c s) → Finishes s
  unfolding run_alone
  step c at f = record { steps = suc f.steps; ends = rw (run_alone, at) f.ends }

  pub arrived : {s : System T} → s.pc i ≡ idle → Finishes s
  unfolding run_alone
  arrived at = record { steps = 0; ends = at }

  pub from_returning : {s : System T} (op : Op T) (b : Bool) → s.pc i ≡ returning op b → Finishes s
  unfolding advance
  from_returning {s} op b at = step _ at (arrived (update_self s.pc i idle))

  pub from_placed : {s : System T} (index : ℕ) (a : Address) → s.pc i ≡ placed index a → Finishes s
  unfolding advance
  from_placed {s} index a at = step _ at (arrived (update_self s.pc i idle))

  pub from_dropping :
      {s : System T} (x : T) (pred curr succ : Address)
      → s.pc i ≡ dropping x pred curr succ
      → Finishes s
  unfolding advance
  from_dropping {s} x pred curr succ at = step _ at (elim (Bool-cases (next_is pred curr s.heap)) [
    | inl q ↦ rw q (from_returning (remove x) true (update_self s.pc i _))
    | inr q ↦ rw q (from_returning (remove x) true (update_self s.pc i _))
  ])

  pub from_checking :
      {s : System T} (x : T) (curr : Address) → s.pc i ≡ checking x curr → Finishes s
  unfolding advance
  from_checking {s} x curr at = step _ at (from_returning _ _ (update_self s.pc i _))

  -- `AttemptMark` succeeds
  pub marks :
      {s : System T} (x : T) (head pred curr succ : Address)
      → s.pc i ≡ marking x head pred curr succ
      → next_is curr succ s.heap ≡ true
      → Finishes s
  unfolding advance
  marks {s} x head pred curr succ at swap =
      step _ at (rw swap (from_dropping x pred curr succ (update_self s.pc i _)))

  pub finds :
      {s : System T} (x : T) (head pred curr : Address)
      → s.pc i ≡ found x head pred curr
      → s.heap.marked curr ≡ false
      → Finishes s
  unfolding advance
  finds {s} x head pred curr at live =
      step _ at (marks x head pred curr (s.heap.ref curr) (update_self s.pc i _) (ground arith))

  -- the compare-and-exchange that links the new node in succeeds
  pub links :
      {s : System T} (job : Job T) (head pred curr : Address)
      → s.pc i ≡ linking job head pred curr
      → inserts job ≡ true
      → next_is pred curr s.heap ≡ true
      → Finishes s
  unfolding advance
  links {s} (adding x node) head pred curr at ins swap =
      step _ at (rw swap (from_returning (add x) true (update_self s.pc i _)))
  links {s} (removing x) head pred curr at ins swap = absurd (ground (arith, ins))
  links {s} (placing index node) head pred curr at ins swap =
      step _ at (rw swap (from_placed index node (update_self s.pc i _)))

  -- `Find` with `curr` just loaded from `pred->next`
  pub record Fresh (on : Address → Bool) (rank : Address → ℕ) (h : Heap T) (job : Job T)
      (pred curr : Address) : Type 0 where
    pub order : Ordered on rank h
    pub pred_on : on pred ≡ true
    pub inner : pred ≢ tail
    pub live : h.marked pred ≡ false
    pub next : h.ref pred ≡ curr
    pub own_off : job_node job ≢ null → on (job_node job) ≡ false
