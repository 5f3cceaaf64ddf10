-- ===== src/BucketList/Machine/Steps/Arrive.antt =====
-- `Find` of src/BucketList.h at a node that it has just loaded.
use concurrent_hash_sets.Base.{
  ℕ, ◌≤◌, ◌<◌, ◌≡◌, ◌≢◌, inl, inr, true, false, length, arith, Bool-cases,
}
use concurrent_hash_sets.Element.{Element}
use concurrent_hash_sets.MarkableReference.{Address}
use concurrent_hash_sets.BucketList.Heap.{matches, tail}
use concurrent_hash_sets.BucketList.Order.{Ordered, arrive, nothing_matches}
use concurrent_hash_sets.BucketList.World.{World, Agrees, sought, contents_after, now}
use concurrent_hash_sets.BucketList.Machine.{Job, adding, removing, placing, target}
use concurrent_hash_sets.BucketList.Machine.Threads.{
  Start, Before, Owns, Saw, Finding, target-lt, Before-inner,
}

module _ {T : Type 0} ⦃e : Element T⦄ {w : World T} (o : Ordered w.on w.rank w.heap)
    (g : Agrees w) where
  pub absent_now :
      (x : T)
      → ((b : Address)
          → w.on b ≡ true
          → w.heap.marked b ≡ false
          → matches b (sought x) w.heap ≡ false)
      → contents_after w.events x ≡ false
  absent_now x none_match = elim (Bool-cases (contents_after w.events x)) [
    | inl q ↦
        let (a, on_a, live, same) = g.present x q in
        absurd (ground (arith, same, none_match a on_a live))
    | inr q ↦ q
  ]

  Saw-next :
      (k : ℕ) (job : Job T) (curr : Address)
      → k ≤ length w.events
      → ((target job).key < w.heap.key curr
          → (b : Address) → w.on b ≡ true
          → w.heap.marked b ≡ false
          → matches b (target job) w.heap ≡ false)
      → Saw w k job curr
  unfolding target
  Saw-next k (adding x node) curr le f = tt
  Saw-next k (removing x) curr le f = λ h. now le (absent_now x (f h))
  Saw-next k (placing index node) curr le f = tt

  module _ (k : ℕ) (le : k ≤ length w.events) (job : Job T) (head pred : Address)
      (begins : Start w (target job) head) (owns : Owns w job) (b : Before w (target job) pred)
      (live : w.heap.marked pred ≡ false) where
    inner : pred ≢ tail
    inner = Before-inner o (target job) (target-lt job) pred b

    -- A load of `pred->next` while `pred` is not marked.
    pub arrives : Finding w k job head pred (w.heap.ref pred)
    arrives = record {
      begins = begins;
      owns = owns;
      pred_before = b;
      curr_on = o.stays pred b.linked_in inner;
      curr_clear = arrive o (target job) pred b.linked_in inner live b.low b.differs b.clear;
      saw =
          Saw-next k job (w.heap.ref pred) le
            (nothing_matches o (target job) pred b.linked_in inner live b.low b.differs b.clear);
    }
