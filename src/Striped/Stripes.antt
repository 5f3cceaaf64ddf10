-- ===== src/Striped/Stripes.antt =====
-- Which buckets a mutex of src/HashSetStriped.h guards.
use native.Mathlib.Nat.{mod-mod_of_dvd}
use concurrent_hash_sets.Base.{ℕ, ◌*◌, ◌%◌, ◌≡◌, ◌≢◌, sym, ◌∙◌, ap}
use concurrent_hash_sets.Element.{Element}
use concurrent_hash_sets.Table.{home}
use concurrent_hash_sets.Locked
use concurrent_hash_sets.Striped.{HashSetStriped, mutex_index}

module _ {T : Type 0} ⦃e : Element T⦄ where
  -- The table has a whole number of buckets for each mutex.
  abbrev pub IsStriped : HashSetStriped T → Type 0
  IsStriped s = (k : ℕ) × (s.capacity ≡ s.mutexes * k)

  pub mutex_of_bucket :
      (x : T) (s : HashSetStriped T)
      → IsStriped s
      → mutex_index x s ≡ Locked.bucket_index x s.core % s.mutexes
  unfolding mutex_index Locked.bucket_index home
  mutex_of_bucket x s h = sym (mod-mod_of_dvd _ (e.hash x) ∣ h ∣₁)

  pub other_bucket :
      (x y : T) (s : HashSetStriped T)
      → IsStriped s
      → mutex_index x s ≢ mutex_index y s
      → Locked.bucket_index x s.core ≢ Locked.bucket_index y s.core
  other_bucket x y s h d q =
      d (mutex_of_bucket x s h ∙ ap (λ (i : ℕ). i % s.mutexes) q ∙ sym (mutex_of_bucket y s h))
