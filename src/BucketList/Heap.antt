-- ===== src/BucketList/Heap.antt =====
-- The nodes of src/BucketList.h in memory: a function from addresses for each member of `Node`.
-- `next` is its reference and its mark. No address is used twice, as for the threads inside a
-- guard of the reclaimer.
use concurrent_hash_sets.Base.{
  ℕ, suc, Bool, true, false, not, ◌&&◌, ◌||◌, ◌==◌, ltb, Option, none, some, List, [], ◌∷◌, update,
}
use concurrent_hash_sets.Element.{Element, equal}
use concurrent_hash_sets.MarkableReference.{Address}
use concurrent_hash_sets.BucketList.Keys.{tail_key}

pub record Heap (T : Type 0) : Type 0 where
  pub elem : Address → T
  pub key : Address → ℕ
  pub ref : Address → Address
  pub marked : Address → Bool
  pub allocated : Address
  pub retired : List Address

-- `nullptr`, and the nodes that `MakeRoot` allocates, the inner one first
abbrev pub null : Address
null = 0

abbrev pub tail : Address
tail = 1

abbrev pub root : Address
root = 2

-- what `Find` looks for: a key and the element, or `nullptr` for a sentinel
pub record Target (T : Type 0) : Type 0 where
  pub key : ℕ
  pub elem : Option T

module _ {T : Type 0} where
  -- the heap after `MakeRoot`; `blank` is the `T` of the member initialiser `T elem{}`
  unfoldable pub make_root : T → Heap T
  make_root blank = record {
    elem = λ a. blank;
    key = update (λ a. 0) tail tail_key;
    ref = update (λ a. null) root tail;
    marked = λ a. false;
    allocated = 3;
    retired = [];
  }

  -- `new Node{ elem, key, MarkableReference<Node*>{ next, false } }`, at the address `h.allocated`
  unfoldable pub new_node : T → ℕ → Address → Heap T → Heap T
  new_node elem key next h = record h {
    elem = update h.elem h.allocated elem;
    key = update h.key h.allocated key;
    ref = update h.ref h.allocated next;
    marked = update h.marked h.allocated false;
    allocated = suc h.allocated;
  }

  -- `a->next.Store(ref, marked)`
  unfoldable pub store_next : Address → Address → Bool → Heap T → Heap T
  store_next a ref marked h = record h {
    ref = update h.ref a ref;
    marked = update h.marked a marked;
  }

  -- whether `a->next.CompareAndSet(ref, false, …)` succeeds
  abbrev pub next_is : Address → Address → Heap T → Bool
  next_is a ref h = h.ref a == ref && not (h.marked a)

  -- `guard_.Retire(a)`
  unfoldable pub retire : Address → Heap T → Heap T
  retire a h = record h { retired = a ∷ h.retired }

  module _ ⦃e : Element T⦄ where
    -- `elem == nullptr || node->elem == *elem`
    abbrev pub same_elem : T → Option T → Bool
    same_elem x none = true
    same_elem x (some y) = equal x y

    -- `Matches`
    unfoldable pub matches : Address → Target T → Heap T → Bool
    matches a t h = (h.key a == t.key) && same_elem (h.elem a) t.elem

    -- `AtOrPast`
    unfoldable pub at_or_past : Address → Target T → Heap T → Bool
    at_or_past a t h = ltb t.key (h.key a) || matches a t h
