-- ===== src/Lib.antt =====
-- Hash sets in C++: one abstract class, src/HashSetBase.h, and seven implementations of it, from one
-- for a single thread to one without locks, with the benchmark that runs them. Four of them keep a
-- vector of buckets that doubles when it holds more than three elements to four buckets; they
-- differ in what they lock. This library models those four, the list of the lock-free set with the
-- marked references that it is built from, the reclaimer of its nodes, the capacities of that set,
-- and the benchmark's own code.
--
-- The parts, and the files that model them:
-- - src/HashSetBase.h: Contract, the record `HashSetBase` of the four methods and of what their
--   comments promise. History has the abstract set, one call at a time, that the sets used by
--   several threads are measured by.
-- - The bucket vector that the four table sets share: Bucket (`std::vector<T>` with find,
--   push_back and erase), Table (the vector of buckets, and the loop of `Resize` that moves the
--   elements). Table/Place says when every element stands in its bucket, Table/Rehash is about the
--   loop, Table/Contents about a table that holds a set, Table/Ends about the ends of an `Add`.
-- - src/HashSetSequential.h: Sequential. A state is the table and `set_size_`.
-- - Locked: the members that the next three files have in common, and the critical sections that the
--   first two of them repeat word for word.
-- - src/HashSetCoarseGrained.h: CoarseGrained, a method at a time, and CoarseGrained/Threads, any
--   number of threads that interleave at locks, shared loads and writes.
-- - src/HashSetStriped.h: Striped, a method at a time; Striped/Stripes and Striped/Commute are
--   about which buckets a mutex guards, Striped/Locks about the mutexes alone, with any number of
--   threads that lock one of them or, by `ScopedVectorLock`, all.
-- - src/HashSetRefinable.h: Refinable, a method at a time, with sections of its own that find their
--   bucket by the hash that the lock yields, and Refinable/Arena, the numbering of mutexes by blocks
--   and offsets.
-- - src/BucketList.h: BucketList/Keys, the split-order keys; BucketList/Heap, the nodes;
--   BucketList/Machine, `Find`, `Add`, `Remove`, `Contains` and `SentinelFor` by any number of
--   threads, a step for each access to a `next`. BucketList/Order and BucketList/World say how the
--   nodes stand to each other and what a step may do to them, Machine/Threads what a thread knows at
--   each point, Machine/Steps that all of it is kept, Machine/Linearizable what follows, and
--   Machine/Alone that a thread that is left alone comes to an end.
-- - src/EpochReclaimer.h: Epoch, the slot of a thread with its bags; Epoch/Threads, `Guard`,
--   `Retire`, `AllAtEpoch` and `TryAdvance` by any number of threads, a step for each shared access;
--   Threads/Clock is about how far the epoch goes, Threads/Kept about what the bags keep.
-- - src/HashSetLockFree.h: LockFree, only its capacities: the checks of the constructor, the parent
--   of a bucket, and `ResizeIfNecessary` with a capacity that other threads may have changed between
--   its load and its exchange.
-- - src/MarkableReference.h: MarkableReference, on the value of the packed word.
-- - src/benchmarks.cc: Benchmark/Workload, the scenarios and the steps drawn for each thread, and
--   Benchmark/Run, `SetUpRun`, the loop of `RunScenario` and `CheckRun` on any `HashSetBase`.
-- - Base, Element, Outcome, Word and Bits are shared: lists with native indices, `==` and
--   `std::hash` of the element type, exceptions, `std::size_t`, and the bit operations of <bit>.
--   Tests has runs at concrete values.
--
-- Correspondence. A method is a function from the state, its argument and, where it allocates, an
-- allocator, to the new state and its answer; the answer of code that can throw is an `Outcome`.
-- The state that comes with `throws` is the state that the exception leaves behind. `std::size_t`
-- has 64 bits: every sum, difference, product and shift is taken modulo 2 ^ 64. A vector index out
-- of range, which C++ leaves undefined, reads an empty bucket and writes nothing. The element type
-- is a parameter with decidable equality, a hash below 2 ^ 64, and the value that a move leaves behind.
-- An allocator answers whether a vector of a number of buckets can be made, and never makes one of
-- more than 2 ^ 60 buckets, since an object spans at most half of the address space and a bucket takes
-- eight bytes or more. It answers for the blocks of mutexes, for the `push_back` of `Add`, and for the
-- `push_back`s of `Resize`, of which it serves a number and then refuses one: the elements before it
-- have then been moved out of the table, which stays. The function `push_back` is what it does when
-- it gets its memory; who calls it asks first. Memory orders are left out: every atomic access is one
-- step on a single memory.
--
-- In CoarseGrained/Threads a step is taken by one thread, chosen freely. That no thread touches the
-- table of another is not built in, since the steps inside a section do not ask who owns the mutex.
-- A step may find memory refused. `ReachAny` has every run, `Reach` those in which no `push_back` of
-- `Resize` is refused, after which the table would hold elements that have been moved from.
--
-- The sequential methods of Refinable may find an assertion broken, or spin: `Run` tells these from
-- an end. The rounds of its lock's constructor are counted by fuel. One round is enough while
-- `resizing_` is false, since no other thread moves the capacity in between.
--
-- In BucketList/Machine a step is one load, compare-and-exchange or test of a `next`, with the work
-- on the thread's own data that follows it; the key and the element of a node are written before it
-- is linked in and never again. A reference and its mark are two values there; that one word holds
-- both is what MarkableReference is about. No address is used twice and nothing is freed, as the
-- guard of the reclaimer promises for what a thread can still reach; `Retire` only records the node,
-- in the step of the exchange that unlinked it. A call may be made on `FromSentinel` for any sentinel
-- that `MakeRoot` or `SentinelFor` has returned and whose key is not past the one looked for, as
-- the assertion in `SentinelFor` asks and as the buckets of the lock-free set keep to. The fields
-- `events` and `began` of its states are read by no step: they record what the theorems speak of.
--
-- In Epoch/Threads the load of the epoch in `Guard` and the announcement of it are two steps, and a
-- relation says which epochs may still be announced by then. The system call membarrier is taken to
-- do what its manual says, so that accesses are steps on a single memory; where it fails, the second
-- scan is not made. The epoch is taken to stay five below 2 ^ 64. The fields `entry` and `since` of
-- the states are read by no step.
--
-- Not modelled: the list and the reclaimer in one machine, so that the guards of the one are those of
-- the other; the cache of slots and the destructor of src/EpochReclaimer.h, `Destroy` of
-- src/BucketList.h; the bucket array and the methods of src/HashSetLockFree.h on the list;
-- src/HashSetTbb.h and src/HashSetLibcds.h, which wrap libraries that are not in the repository; threads that interleave
-- on the table of the striped set, or inside the refinable set; alignment; the registration of
-- benchmarks.

pub mod Base
pub mod Element
pub mod Outcome
pub mod Word
pub mod Bucket
pub mod Table
pub mod Contract
pub mod Sequential
pub mod Striped
pub mod Locked
pub mod CoarseGrained
pub mod History
pub mod Bits
pub mod MarkableReference
pub mod Refinable
pub mod LockFree
pub mod BucketList
pub mod Epoch
pub mod Benchmark
mod Tests
