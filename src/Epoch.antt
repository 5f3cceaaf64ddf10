-- ===== src/Epoch.antt =====
-- src/EpochReclaimer.h: the slot of a thread, with its bags of retired nodes, and the epochs of the
-- threads. `unique_ptr<T>` is the address that it owns; a bag that is cleared deletes its nodes.
pub mod Threads
use concurrent_hash_sets.Base.{
  ℕ, suc, ◌+◌, ◌-◌, ◌%◌, Bool, true, false, not, ◌&&◌, ◌==◌, leb, if◌then◌else◌, List, [], ◌∷◌,
  ◌++◌, update,
}
use concurrent_hash_sets.Element.{word}
use concurrent_hash_sets.Word.{add_word}
use concurrent_hash_sets.MarkableReference.{Address}

-- `kBags`, `kInactive`, `kRetiresPerAdvance`
abbrev pub bag_count : ℕ
bag_count = 3

abbrev pub inactive : ℕ
inactive = word - 1

abbrev pub retires_per_advance : ℕ
retires_per_advance = 1024

-- `Participant`, less `next` and `owner`
pub record Participant : Type 0 where
  pub epoch : ℕ
  pub announced : ℕ
  pub retires : ℕ
  pub bag_epochs : ℕ → ℕ
  pub bags : ℕ → List Address

-- `Participant{}`
abbrev pub new_participant : Participant
new_participant = record {
  epoch = inactive;
  announced = 0;
  retires = 0;
  bag_epochs = λ k. inactive;
  bags = λ k. [];
}

-- `CollectGarbage`, its loop body
unfoldable pub collect_bag : ℕ → ℕ → Participant → Participant
collect_bag epoch_now index p =
    if not (p.bag_epochs index == inactive) && leb (add_word (p.bag_epochs index) 2) epoch_now
    then record p { bags = update p.bags index []; bag_epochs = update p.bag_epochs index inactive }
    else p

-- `CollectGarbage`
unfoldable pub collect_garbage : ℕ → Participant → Participant
collect_garbage epoch_now p =
    collect_bag epoch_now 2 (collect_bag epoch_now 1 (collect_bag epoch_now 0 p))

-- `Enter`
unfoldable pub enter : ℕ → Participant → Participant
enter epoch_now p =
    let q = if epoch_now == p.announced then p else collect_garbage epoch_now p in
    record q { announced = epoch_now; epoch = epoch_now }

-- `Leave`
unfoldable pub leave : Participant → Participant
leave p = record p { epoch = inactive }

-- `Retire`, before the node is put into its bag: the bag is emptied if it is of another epoch
unfoldable pub renew_bag : Participant → Participant
renew_bag p =
    let bag_epoch = add_word p.announced 1 in
    let index = bag_epoch % bag_count in
    if p.bag_epochs index == bag_epoch then p else record p {
      bags = update p.bags index [];
      bag_epochs = update p.bag_epochs index bag_epoch;
    }

-- `Retire` up to its count: the node goes into its bag
unfoldable pub retire_node : Address → Participant → Participant
retire_node garbage p =
    let index = add_word p.announced 1 % bag_count in
    let q = renew_bag p in record q { bags = update q.bags index (q.bags index ++ (garbage ∷ [])) }

-- `++self.retires == kRetiresPerAdvance`, and the count afterwards
unfoldable pub count_retire : Participant → Participant × Bool
count_retire p =
    let n = add_word p.retires 1 in
    if n == retires_per_advance
    then (record p { retires = 0 }, true)
    else (record p { retires = n }, false)
