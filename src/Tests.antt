-- ===== src/Tests.antt =====
-- Sample elements, allocators and states for the runs in the modules below.
mod Sets
mod Threads
mod Words
mod Locks
mod Runs
mod ListRuns
mod Epochs
mod Keys
use concurrent_hash_sets.Base.{ℕ, ◌%◌, ◌≤◌, ◌<◌, ◌≡◌, Bool, true, leb, ℕ_discrete, arith}
use native.Mathlib.Nat.{mod-lt}
use concurrent_hash_sets.Element.{Element, word}
use concurrent_hash_sets.Outcome.{Allocator}

-- numbers, each with itself as the hash
instance abbrev pub numbers : Element ℕ
numbers = record {
  discrete = ℕ_discrete;
  hash = λ x. x % word;
  hash-lt = λ x. mod-lt x (omega arith);
  moved = λ x. x;
}

pub leb→le : (a b : ℕ) → leb a b ≡ true → a ≤ b
leb→le a b h = ground arith

-- an allocator of vectors of up to 64 buckets
abbrev pub roomy : Allocator
roomy = record {
  fits = λ n. leb n 64;
  fits_small = λ n h. let r = leb→le n 64 h in omega (arith, r);
  appends = true;
  refills = 64;
}

-- an allocator of vectors of up to 2 buckets
abbrev pub cramped : Allocator
cramped = record {
  fits = λ n. leb n 2;
  fits_small = λ n h. let r = leb→le n 2 h in omega (arith, r);
  appends = true;
  refills = 64;
}
