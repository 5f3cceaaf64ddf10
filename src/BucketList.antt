-- ===== src/BucketList.antt =====
-- src/BucketList.h: the keys of its nodes, the nodes in memory, and the operations of the threads.
pub mod Keys
pub mod Heap
pub mod Order
pub mod World
pub mod Machine
