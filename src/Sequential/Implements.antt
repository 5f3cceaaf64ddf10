-- ===== src/Sequential/Implements.antt =====
-- HashSetSequential as a HashSetBase.
use concurrent_hash_sets.Base.{flatten, arith}
use concurrent_hash_sets.Element.{Element}
use concurrent_hash_sets.Contract.{HashSetBase}
use concurrent_hash_sets.Table.Place.{count-flatten}
use concurrent_hash_sets.Table.Contents.{member-flatten}
use concurrent_hash_sets.Table.Ends.{AddEnds-Updates, AddEnds-Answers}
use concurrent_hash_sets.Sequential.{HashSetSequential, bucket_index, add, remove, contains, size}
use concurrent_hash_sets.Sequential.Laws.{IsValid, add-AddEnds, remove-Changes}
use concurrent_hash_sets.Sequential.Results.{remove-result}

-- The sequential set keeps every promise of the abstract class.
unfoldable pub sequential : {T : Type 0} ⦃e : Element T⦄ → HashSetBase T
unfolding contains bucket_index size
sequential {T} = record {
  State = HashSetSequential T;
  IsValid = IsValid;
  elements = λ s. flatten s.table;
  add = add;
  remove = remove;
  contains = contains;
  size = size;
  add-IsValid = λ mem x s v q. (AddEnds-Updates (add-AddEnds v x mem) q).holds;
  remove-IsValid = λ x s v. (remove-Changes v x).holds;
  contains_lem = λ x s v. member-flatten v x;
  size_lem = λ s v. v.counted;
  elements_unique = λ x s v. rw (count-flatten v.is_placed x) (v.unique x);
  add-Answers = λ mem x s v. AddEnds-Answers (add-AddEnds v x mem);
  add-self = λ mem x s v q. (AddEnds-Updates (add-AddEnds v x mem) q).self;
  add-others = λ mem x y s v q d. (AddEnds-Updates (add-AddEnds v x mem) q).others y d;
  add-amount = λ mem x s v q. (AddEnds-Updates (add-AddEnds v x mem) q).amount;
  remove-result = λ x s v. remove-result x s;
  remove-self = λ x s v. (remove-Changes v x).self;
  remove-others = λ x y s v q. (remove-Changes v x).others y q;
  remove-amount = λ x s v. omega (arith, (remove-Changes v x).amount);
}
