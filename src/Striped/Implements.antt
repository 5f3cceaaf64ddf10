-- ===== src/Striped/Implements.antt =====
-- HashSetStriped, used by one thread at a time, as a HashSetBase.
use concurrent_hash_sets.Base.{flatten, arith}
use concurrent_hash_sets.Element.{Element}
use concurrent_hash_sets.Contract.{HashSetBase}
use concurrent_hash_sets.Table.Place.{count-flatten}
use concurrent_hash_sets.Table.Contents.{member-flatten}
use concurrent_hash_sets.Locked
use concurrent_hash_sets.Locked.Laws.{remove-result}
use concurrent_hash_sets.Striped.{HashSetStriped, add, remove, contains, size}
use concurrent_hash_sets.Striped.Laws.{IsValid, add-AddEnded, add-IsValid, remove-Changed}
use concurrent_hash_sets.Table.Ends.{AddEnds-Updates, AddEnds-Answers}

-- The set keeps every promise of the abstract class.
unfoldable pub striped : {T : Type 0} ⦃e : Element T⦄ → HashSetBase T
unfolding contains remove size Locked.contains Locked.bucket
striped {T} = record {
  State = HashSetStriped T;
  IsValid = IsValid;
  elements = λ s. flatten s.table;
  add = add;
  remove = remove;
  contains = contains;
  size = size;
  add-IsValid = λ mem x s v q. add-IsValid v x mem q;
  remove-IsValid = λ x s v. (remove-Changed v x).valid;
  contains_lem = λ x s v. member-flatten v.holds x;
  size_lem = λ s v. v.holds.counted;
  elements_unique = λ x s v. rw (count-flatten v.holds.is_placed x) (v.holds.unique x);
  add-Answers = λ mem x s v. AddEnds-Answers (add-AddEnded v x mem).ends;
  add-self = λ mem x s v q. (AddEnds-Updates (add-AddEnded v x mem).ends q).self;
  add-others = λ mem x y s v q d. (AddEnds-Updates (add-AddEnded v x mem).ends q).others y d;
  add-amount = λ mem x s v q. (AddEnds-Updates (add-AddEnded v x mem).ends q).amount;
  remove-result = λ x s v. remove-result x s.core;
  remove-self = λ x s v. (remove-Changed v x).changes.self;
  remove-others = λ x y s v q. (remove-Changed v x).changes.others y q;
  remove-amount = λ x s v. omega (arith, (remove-Changed v x).changes.amount);
}
