-- ===== src/Epoch/Threads.antt =====
-- The threads on src/EpochReclaimer.h, a shared access at a time. Memory orders and the barriers are
-- left out: every access is one step on a single memory.
pub mod Clock
pub mod Kept
use concurrent_hash_sets.Base.{
  ℕ, suc, ◌+◌, ◌-◌, ◌%◌, ◌≤◌, ◌<◌, ◌≡◌, ◌≢◌, Bool, true, false, not, ◌&&◌, ◌==◌, if◌then◌else◌,
  List, [], ◌∷◌, update,
}
use concurrent_hash_sets.Element.{word}
use concurrent_hash_sets.Word.{add_word}
use concurrent_hash_sets.MarkableReference.{Address}
use concurrent_hash_sets.Epoch.{
  Participant, inactive, new_participant, enter, leave, retire_node, count_retire,
}

-- Where a thread stands.
pub data Pc : Type 0 where
  outside : Pc
  entering : ℕ → Pc  -- `Guard`, between the load of `epoch_` and `Enter`
  inside : Pc
  advancing : Pc  -- `TryAdvance`, before its load of `epoch_`
  loaded : ℕ → Pc  -- before the first `AllAtEpoch`
  glancing : ℕ → List ℕ → Pc  -- `AllAtEpoch` with the slots that are left
  fencing : ℕ → Pc  -- before the exchange of `advancing_`
  fenced : ℕ → Pc  -- before the second `AllAtEpoch`, `advancing_` is held
  scanning : ℕ → List ℕ → Pc
  releasing : Pc  -- before `advancing_` is cleared

-- A retired node: who retired it, in the bag of which epoch.
pub record Retired : Type 0 where
  pub owner : ℕ
  pub tag : ℕ
  pub node : Address

-- `epoch_`, `advancing_`, `participants_` and the slots. The rest is read by no step: the epoch when
-- a thread last announced itself, and what has been retired since, by any thread.
pub record System : Type 0 where
  pub epoch : ℕ
  pub busy : Bool
  pub members : List ℕ
  pub slot : ℕ → Participant
  pub pc : ℕ → Pc
  pub entry : ℕ → ℕ
  pub since : ℕ → List Retired

abbrev pub goto : ℕ → Pc → System → System
goto i p s = record s { pc = update s.pc i p }

abbrev pub initial : System
initial = record {
  epoch = 0;
  busy = false;
  members = [];
  slot = λ i. new_participant;
  pc = λ i. outside;
  entry = λ i. 0;
  since = λ i. [];
}

-- An entry of a list.
pub data In {ℓ} {A : Type ℓ} (a : A) : List A → Type ℓ where
  first : {xs : List A} → In a (a ∷ xs)
  rest : {b : A} {xs : List A} → In a xs → In a (b ∷ xs)

-- `announced != kInactive && announced != epoch_now`, for the slot of `j`
abbrev pub lags : System → ℕ → ℕ → Bool
lags s epoch_now j = not ((s.slot j).epoch == inactive) && not ((s.slot j).epoch == epoch_now)

-- the slot of a thread replaced
abbrev pub with_slot : ℕ → Participant → System → System
with_slot i p s = record s { slot = update s.slot i p }

-- `Retire` by a thread inside a guard, up to `TryAdvance`
abbrev pub retire : ℕ → Address → System → System
retire i x s =
    let (p, full) = count_retire (retire_node x (s.slot i)) in
    record s {
      slot = update s.slot i p;
      pc = update s.pc i (if full then advancing else inside);
      since =
          λ j. record { owner = i; tag = add_word (s.slot i).announced 1; node = x } ∷ s.since j;
    }

-- Thread `i` makes a step. `late e g` says whether a thread that loaded the epoch `e` may still
-- announce it when the epoch is `g`.
pub data Step (late : ℕ → ℕ → Type 0) (s : System) (i : ℕ) : System → Type 0 where
  adopt :
      s.pc i ≡ outside → (In i s.members → ⊥) → Step late s i (record s { members = i ∷ s.members })
  begin : s.pc i ≡ outside → In i s.members → Step late s i (goto i (entering s.epoch) s)
  announce :
      {e : ℕ}
      → s.pc i ≡ entering e
      → late e s.epoch
      → Step late s i (record s {
        slot = update s.slot i (enter e (s.slot i));
        pc = update s.pc i inside;
        entry = update s.entry i s.epoch;
        since = update s.since i [];
      })
  hand_over : (x : Address) → s.pc i ≡ inside → Step late s i (retire i x s)
  end : s.pc i ≡ inside → Step late s i (goto i outside (with_slot i (leave (s.slot i)) s))
  load_epoch : s.pc i ≡ advancing → Step late s i (goto i (loaded s.epoch) s)
  load_members : {g : ℕ} → s.pc i ≡ loaded g → Step late s i (goto i (glancing g s.members) s)
  glance :
      {g j : ℕ} {js : List ℕ}
      → s.pc i ≡ glancing g (j ∷ js)
      → lags s g j ≡ false
      → Step late s i (goto i (glancing g js) s)
  give_up :
      {g j : ℕ} {js : List ℕ}
      → s.pc i ≡ glancing g (j ∷ js)
      → lags s g j ≡ true
      → Step late s i (goto i inside s)
  glanced : {g : ℕ} → s.pc i ≡ glancing g [] → Step late s i (goto i (fencing g) s)
  taken : {g : ℕ} → s.pc i ≡ fencing g → s.busy ≡ true → Step late s i (goto i inside s)
  take :
      {g : ℕ}
      → s.pc i ≡ fencing g
      → s.busy ≡ false
      → Step late s i (goto i (fenced g) (record s { busy = true }))
  fence_fails : {g : ℕ} → s.pc i ≡ fenced g → Step late s i (goto i releasing s)
  fence : {g : ℕ} → s.pc i ≡ fenced g → Step late s i (goto i (scanning g s.members) s)
  scan :
      {g j : ℕ} {js : List ℕ}
      → s.pc i ≡ scanning g (j ∷ js)
      → lags s g j ≡ false
      → Step late s i (goto i (scanning g js) s)
  scan_fails :
      {g j : ℕ} {js : List ℕ}
      → s.pc i ≡ scanning g (j ∷ js)
      → lags s g j ≡ true
      → Step late s i (goto i releasing s)
  -- the epochs do not run out
  swap :
      {g : ℕ}
      → s.pc i ≡ scanning g []
      → s.epoch ≡ g
      → g + 5 < word
      → Step late s i (goto i releasing (record s { epoch = add_word g 1 }))
  swap_fails : {g : ℕ} → s.pc i ≡ scanning g [] → s.epoch ≢ g → Step late s i (goto i releasing s)
  release : s.pc i ≡ releasing → Step late s i (goto i inside (record s { busy = false }))

-- The states that the threads can reach in any order.
pub data Reach (late : ℕ → ℕ → Type 0) : System → Type 0 where
  start : Reach late initial
  later : {s t : System} (i : ℕ) → Reach late s → Step late s i t → Reach late t

-- whether a thread is inside a guard that it has announced
abbrev pub guarded : Pc → Bool
guarded outside = false
guarded (entering e) = false
guarded _ = true
