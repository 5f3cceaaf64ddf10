-- ===== src/BucketList/Machine/Invariant.antt =====
-- What holds between the steps of the threads on the list of src/BucketList.h.
use concurrent_hash_sets.Base.{
  ℕ, ◌%◌, ◌≤◌, ◌<◌, ◌≡◌, ◌≢◌, ◌⊎◌, refl, sym, Bool, true, length, arith, ℕ_discrete, update,
  update_self, update_ne,
}
use concurrent_hash_sets.Element.{Element}
use concurrent_hash_sets.MarkableReference.{Address}
use concurrent_hash_sets.BucketList.Heap.{null}
use concurrent_hash_sets.BucketList.Order.{Ordered}
use concurrent_hash_sets.BucketList.World.{World, Agrees, length-grown}
use concurrent_hash_sets.BucketList.World.Changes.{Change}
use concurrent_hash_sets.BucketList.Machine.{Pc, System}
use concurrent_hash_sets.BucketList.Machine.Threads.{own_node, Knows}
use concurrent_hash_sets.BucketList.Machine.Threads.Stays.{Knows-kept}

abbrev pub world_of : {T : Type 0} → System T → (Address → Bool) → (Address → ℕ) → World T
world_of s on rank = record { heap = s.heap; on = on; rank = rank; events = s.events }

module _ {T : Type 0} ⦃e : Element T⦄ where
  -- Linked sentinels, that threads may have been given.
  abbrev pub Given : World T → (Address → Bool) → Type 0
  Given w given = (a : Address) → given a ≡ true → (w.on a ≡ true) × (w.heap.key a % 2 ≡ 0)

  pub record Inv (s : System T) : Type 0 where
    pub on : Address → Bool
    pub rank : Address → ℕ
    pub order : Ordered on rank s.heap
    pub agrees : Agrees (world_of s on rank)
    pub sentinels : Given (world_of s on rank) s.given
    pub knows : (i : ℕ) → Knows (world_of s on rank) i (s.began i) (s.pc i)
    -- no two threads have the same new node
    pub apart : (i j : ℕ) → i ≢ j → own_node (s.pc i) ≢ null → own_node (s.pc i) ≢ own_node (s.pc j)
    pub own_made : (i : ℕ) → own_node (s.pc i) < s.heap.allocated
    pub begun : (i : ℕ) → s.began i ≤ length s.events

  module _ {s : System T} (inv : Inv s) where
    -- the world, as it is now
    abbrev pub here : World T
    here = world_of s inv.on inv.rank

    -- A step of thread `i`.
    pub move :
        (i : ℕ) (v : World T) (p : Pc T) (given : Address → Bool) (began : ℕ → ℕ)
        → Change (own_node (s.pc i)) here v
        → ((j : ℕ) → i ≢ j → began j ≡ s.began j)
        → began i ≤ length v.events
        → Given v given
        → Knows v i (began i) p
        → (own_node p ≡ null) ⊎ ((own_node p ≡ own_node (s.pc i)) ⊎ (s.heap.allocated ≤ own_node p))
        → own_node p < v.heap.allocated
        → Inv (record {
          heap = v.heap;
          pc = update s.pc i p;
          given = given;
          events = v.events;
          began = began;
        })
    move i v p given began c same le g k n m =
        let others : (j : ℕ) → i ≢ j → Knows v j (began j) (s.pc j) = λ j d. rw (same j d) (
          Knows-kept inv.order c.order c.later j (s.began j) (length-grown c.later _ (inv.begun j))
            (s.pc j) (λ r q. inv.apart j i (λ z. d (sym z)) r q) (inv.knows j)) in
        record {
          on = v.on;
          rank = v.rank;
          order = c.order;
          agrees = c.agrees;
          sentinels = g;
          knows = λ j. elim (ℕ_discrete i j) [
            | yes q ↦ rw (← q, update_self s.pc i p) k
            | no q ↦ rw (update_ne s.pc i j p q) (others j q)
          ];
          apart = λ a b d q r. ground (
            arith,
            n,
            inv.apart a b,
            inv.apart i b,
            inv.apart a i,
            inv.own_made a,
            inv.own_made b,
          );
          own_made = λ j. ground (arith, m, inv.own_made j, c.later.made);
          begun = λ j. elim (ℕ_discrete i j) [
            | yes q ↦ rw (← q) le
            | no q ↦ rw (same j q) (length-grown c.later _ (inv.begun j))
          ];
        }

    pub given-kept : {mine : Address} {v : World T} → Change mine here v → Given v s.given
    given-kept c a q =
        let (on_a, even) = inv.sentinels a q in
        (c.later.on_kept a on_a, rw (c.later.same_key a (inv.order.fresh a on_a)) even)

    -- A step inside a call.
    pub go :
        (i : ℕ) (v : World T) (p : Pc T)
        → Change (own_node (s.pc i)) here v
        → Knows v i (s.began i) p
        → (own_node p ≡ null) ⊎ ((own_node p ≡ own_node (s.pc i)) ⊎ (s.heap.allocated ≤ own_node p))
        → own_node p < v.heap.allocated
        → Inv (record s { heap = v.heap; pc = update s.pc i p; events = v.events })
    go i v p c k n m =
        move i v p s.given s.began c (λ j d. refl) (length-grown c.later _ (inv.begun i))
          (given-kept c) k n m
