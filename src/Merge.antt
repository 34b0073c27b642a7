-- ===== src/Merge.antt =====
-- crates/compactor/src/merge: the order of keys and the sources of a merge.
pub mod Cmp
pub mod Source
pub mod LoserTree
pub mod Heap
pub mod Streams
