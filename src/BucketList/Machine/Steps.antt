-- ===== src/BucketList/Machine/Steps.antt =====
-- The steps of the threads on the list of src/BucketList.h, and what holds between them.
pub mod Arrive
pub mod Window
pub mod Search
pub mod Advance
pub mod Look
use concurrent_hash_sets.Base.{
  ℕ, ◌≤◌, ◌<◌, ◌≡◌, ◌≢◌, ◌⊎◌, inl, inr, refl, sym, ◌∙◌, ap, Bool, true, false, not, ◌&&◌, ◌==◌,
  ==_iff, arith, update,
}
use concurrent_hash_sets.Element.{Element}
use concurrent_hash_sets.MarkableReference.{Address}
use concurrent_hash_sets.BucketList.Heap.{Heap, null, next_is}
use concurrent_hash_sets.BucketList.World.{World}
use concurrent_hash_sets.BucketList.World.Changes
use concurrent_hash_sets.BucketList.World.Changes.{Change-none}
use concurrent_hash_sets.BucketList.Machine.{Pc, System, goto}
use concurrent_hash_sets.BucketList.Machine.Threads.{own_node, Knows}
use concurrent_hash_sets.BucketList.Machine.Invariant.{Inv, here, go}

pub next_is_sound :
    {T : Type 0} (a ref : Address) (h : Heap T)
    → next_is a ref h ≡ true
    → (h.ref a ≡ ref) × (h.marked a ≡ false)
next_is_sound a ref h q = ground arith

module _ {T : Type 0} ⦃e : Element T⦄ {s : System T} (inv : Inv s) (i : ℕ) (c : Pc T)
    (at : s.pc i ≡ c) where
  -- where the thread's node stands after a step
  abbrev pub KeepsNode : Pc T → Type 0
  KeepsNode p = (own_node p ≡ null) ⊎ ((own_node p ≡ own_node c) ⊎ (s.heap.allocated ≤ own_node p))

  pub known : Knows (here inv) i (s.began i) c
  known = rw at at (inv.knows i)

  pub own_at : own_node c < s.heap.allocated
  own_at = rw at at (inv.own_made i)

  pub go_at :
      (v : World T) (p : Pc T)
      → Changes.Change (own_node c) (here inv) v
      → Knows v i (s.began i) p
      → KeepsNode p
      → own_node p < v.heap.allocated
      → Inv (record s { heap = v.heap; pc = update s.pc i p; events = v.events })
  go_at v p change k n m = go inv i v p (rw at change) k (rw at n) m

  -- A step that changes nothing but where the thread stands.
  pub go_on :
      (p : Pc T)
      → Knows (here inv) i (s.began i) p
      → (own_node p ≡ null) ⊎ (own_node p ≡ own_node c)
      → Inv (goto i p s)
  go_on p k n =
      go_at (here inv) p (Change-none inv.order inv.agrees (own_node c)) k (ground (arith, n))
        (ground (arith, n, own_at, inv.order.fresh _ inv.order.root_on))
