-- ===== src/BucketList/Machine/Threads.antt =====
-- What each thread on the list of src/BucketList.h knows where it stands, and that it stays so while
-- other threads work.
pub mod Stays
use concurrent_hash_sets.Base.{
  ℕ, suc, ◌%◌, ◌≤◌, ◌<◌, ◌≡◌, ◌≢◌, ◌⊎◌, inl, inr, refl, sym, ◌∙◌, ap, Bool, true, false, not, List,
  ◌∷◌, length, Option, none, some, arith, ℕ_discrete, dec_lt, Bool-cases, update,
}
use concurrent_hash_sets.Element.{Element}
use concurrent_hash_sets.MarkableReference.{Address}
use concurrent_hash_sets.History.{Op, add, remove, contains, Event}
use concurrent_hash_sets.BucketList.Keys.{make_ordinary_key, make_sentinel_key, tail_key}
use concurrent_hash_sets.BucketList.Keys.Order.{
  make_ordinary_key-lt, make_sentinel_key-lt, make_ordinary_key-odd, make_sentinel_key-even,
}
use concurrent_hash_sets.BucketList.Heap.{Heap, null, tail, Target, matches}
use concurrent_hash_sets.BucketList.Order.{times, Ordered, matches-same, matches-key, Clear}
use concurrent_hash_sets.BucketList.World.{
  World, Later, sought, contents_after, Moment, now, before, Effected, Moment-kept, Effected-kept,
  length-grown, matches-kept, Clear-kept,
}
use concurrent_hash_sets.BucketList.World.Ahead.{Ahead, Ahead-kept}
use concurrent_hash_sets.BucketList.Machine.{
  Job, adding, removing, placing, Pc, idle, find_head, find_next, unlinking, linking, found,
  marking, dropping, looking, checking, returning, placed, target,
}

-- the local `node` of `Add` and of `SentinelFor`
abbrev pub job_node : {T : Type 0} → Job T → Address
job_node (adding x node) = node
job_node (removing x) = null
job_node (placing index node) = node

abbrev pub own_node : {T : Type 0} → Pc T → Address
own_node (find_head job head) = job_node job
own_node (find_next job head pred curr) = job_node job
own_node (unlinking job head pred curr succ) = job_node job
own_node (linking job head pred curr) = job_node job
own_node _ = null

abbrev pub inserts : {T : Type 0} → Job T → Bool
inserts (removing x) = false
inserts _ = true

module _ {T : Type 0} ⦃e : Element T⦄ where
  -- What a call has answered, by the effects since it began: an effect of its own, or a moment.
  unfoldable pub Answered : (i k : ℕ) → Op T → Bool → List (Event T) → Type 0
  Answered i k (add x) true h = Effected i k (add x) h
  Answered i k (add x) false h = Moment k x true h
  Answered i k (remove x) true h = Effected i k (remove x) h
  Answered i k (remove x) false h = Moment k x false h
  Answered i k (contains x) b h = Moment k x b h

  pub target-lt : (job : Job T) → (target job).key < tail_key
  unfolding target
  target-lt (adding x node) = make_ordinary_key-lt x
  target-lt (removing x) = make_ordinary_key-lt x
  target-lt (placing index node) = make_sentinel_key-lt index

  -- the head of a list that a call may be made on
  pub record Start (w : World T) (t : Target T) (head : Address) : Type 0 where
    pub linked_in : w.on head ≡ true
    pub even : w.heap.key head % 2 ≡ 0
    pub below : w.heap.key head < t.key

  -- a node that `Find` has gone past
  pub record Before (w : World T) (t : Target T) (pred : Address) : Type 0 where
    pub linked_in : w.on pred ≡ true
    pub low : w.heap.key pred ≤ t.key
    pub differs : matches pred t w.heap ≡ false
    pub clear : Clear w.on w.rank w.heap t pred

  -- the thread's own node, once it is allocated
  pub record Private (w : World T) (t : Target T) (node : Address) : Type 0 where
    pub off : w.on node ≡ false
    pub made : node < w.heap.allocated
    pub same : matches node t w.heap ≡ true

  abbrev pub Owns : World T → Job T → Type 0
  Owns w job = job_node job ≢ null → Private w (target job) (job_node job)

  -- once `Remove` has loaded a node that is past its key
  abbrev pub Saw : World T → ℕ → Job T → Address → Type 0
  Saw w k (removing x) curr = make_ordinary_key x < w.heap.key curr → Moment k x false w.events
  Saw w k _ curr = Unit {0}

  pub record Finding (w : World T) (k : ℕ) (job : Job T) (head pred curr : Address) : Type 0 where
    pub begins : Start w (target job) head
    pub owns : Owns w job
    pub pred_before : Before w (target job) pred
    pub curr_on : w.on curr ≡ true
    pub curr_clear : Clear w.on w.rank w.heap (target job) curr
    pub saw : Saw w k job curr

  pub record Unlinking (w : World T) (job : Job T) (head pred curr succ : Address) : Type 0 where
    pub begins : Start w (target job) head
    pub owns : Owns w job
    pub pred_before : Before w (target job) pred
    pub curr_on : w.on curr ≡ true
    pub dead : w.heap.marked curr ≡ true
    pub next_is : w.heap.ref curr ≡ succ

  pub record Linking (w : World T) (job : Job T) (head pred curr : Address) : Type 0 where
    pub begins : Start w (target job) head
    pub job_inserts : inserts job ≡ true
    pub made : job_node job ≢ null
    pub own : Private w (target job) (job_node job)
    pub next_is : w.heap.ref (job_node job) ≡ curr
    pub live : w.heap.marked (job_node job) ≡ false
    pub pred_before : Before w (target job) pred
    pub curr_on : w.on curr ≡ true
    pub above : (target job).key < w.heap.key curr

  pub record Marking (w : World T) (x : T) (head pred curr : Address) : Type 0 where
    pub begins : Start w (target (removing x)) head
    pub pred_before : Before w (target (removing x)) pred
    pub curr_on : w.on curr ≡ true
    pub same : matches curr (sought x) w.heap ≡ true

  pub record Dropping (w : World T) (i k : ℕ) (x : T) (pred curr succ : Address) : Type 0 where
    pub pred_before : Before w (target (removing x)) pred
    pub curr_on : w.on curr ≡ true
    pub dead : w.heap.marked curr ≡ true
    pub next_is : w.heap.ref curr ≡ succ
    pub effected : Effected i k (remove x) w.events

  pub record Looking (w : World T) (k : ℕ) (x : T) (curr : Address) : Type 0 where
    pub curr_on : w.on curr ≡ true
    pub low : w.heap.key curr ≤ make_ordinary_key x
    pub differs : matches curr (sought x) w.heap ≡ false
    pub either : Moment k x false w.events ⊎ Ahead w x curr

  pub record Checking (w : World T) (k : ℕ) (x : T) (curr : Address) : Type 0 where
    pub curr_on : w.on curr ≡ true
    pub same : matches curr (sought x) w.heap ≡ true
    pub either : Moment k x false w.events ⊎ (w.heap.marked curr ≡ false)

  unfoldable pub Knows : World T → (i k : ℕ) → Pc T → Type 0
  Knows w i k idle = Unit
  Knows w i k (find_head job head) = Start w (target job) head × Owns w job
  Knows w i k (find_next job head pred curr) = Finding w k job head pred curr
  Knows w i k (unlinking job head pred curr succ) = Unlinking w job head pred curr succ
  Knows w i k (linking job head pred curr) = Linking w job head pred curr
  Knows w i k (found x head pred curr) = Marking w x head pred curr
  Knows w i k (marking x head pred curr succ) = Marking w x head pred curr
  Knows w i k (dropping x pred curr succ) = Dropping w i k x pred curr succ
  Knows w i k (looking x curr) = Looking w k x curr
  Knows w i k (checking x curr) = Checking w k x curr
  Knows w i k (returning op b) = Answered i k op b w.events
  Knows w i k (placed index a) = (w.on a ≡ true) × (w.heap.key a ≡ make_sentinel_key index)

  module _ {w : World T} (o : Ordered w.on w.rank w.heap) (t : Target T)
      (low : t.key < tail_key) where
    pub Before-inner : (pred : Address) → Before w t pred → pred ≢ tail
    Before-inner pred b q = omega (arith, ap w.heap.key q, b.low, o.tail_last)

    pub Start-Before : (head : Address) → Start w t head → Before w t head
    Start-Before head s =
        let unequal : (b : Address) → w.heap.key b < t.key → matches b t w.heap ≡ false = λ b l.
          elim (Bool-cases (matches b t w.heap)) [
            | inl q ↦ absurd (omega (arith, matches-key b t w.heap q))
            | inr q ↦ q
          ] in
        record {
          linked_in = s.linked_in;
          low = omega (arith, s.below);
          differs = unequal head s.below;
          clear = λ live l b on_b z r.
              unequal b (omega (arith, s.below, o.sorted b head on_b s.linked_in r live));
        }
