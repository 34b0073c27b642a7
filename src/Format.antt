-- ===== src/Format.antt =====
-- crates/compactor/src/format: the codec of the block-based table format.
pub mod Error
pub mod Fixed
pub mod Varint
pub mod InternalKey
pub mod BlockBuilder
pub mod Block
pub mod Checksum
pub mod Trailer
pub mod Footer
pub mod IndexBlock
pub mod Metaindex
pub mod SstBuilder
pub mod Sorted
pub mod Properties
