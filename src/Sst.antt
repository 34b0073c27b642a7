-- ===== src/Sst.antt =====
-- Reading a file: crates/compactor/src/io/mod.rs and sst/mod.rs, and `load_arena_source` of
-- compaction/mod.rs. Their waiting for a read is left out: a read answers at once.
pub mod Outcome
pub mod Reader
pub mod RoundTrip
pub mod Loading
pub mod Agreement
