-- ===== src/Compaction.antt =====
-- crates/compactor/src/compaction: drop policies and the compaction loop.
pub mod Strategy
pub mod Loop
pub mod Readers
pub mod Guarantees
pub mod Sharding
pub mod Whole
pub mod Files
