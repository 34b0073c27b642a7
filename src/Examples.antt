-- ===== src/Examples.antt =====
-- Runs on concrete inputs, and the theorems at such inputs.
mod Compaction
mod Format
mod Block
mod Merge
mod Sharding
mod File
mod Whole
mod Oracle
mod Heap
mod Index
mod Metaindex
mod Sst
mod CompactFiles
