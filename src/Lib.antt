-- ===== src/Lib.antt =====
-- A verification library for the compactor crates: k-way merge compaction of SST files.
--
-- Parts of the program. An SST file is made of blocks (crates/compactor/src/format): varints and
-- fixed-width numbers, keys packed with their sequence number and type, data blocks that share
-- key prefixes between restart points. Sources of sorted entries are merged in the order of the
-- internal keys (crates/compactor/src/merge), and the compaction loop
-- (crates/compactor/src/compaction) asks a strategy for every merged entry whether it stays. A
-- large compaction is cut into shards at user keys, one loop for each. What stays is built into
-- the bytes of a file, which a compaction loads as a whole and SstReader
-- (crates/compactor/src/sst) block by block. The oracle crate has a naive compaction that the
-- fuzzer crate compares with.
--
-- Files and code, paths below crates/compactor/src where no crate is named:
--   Format/Varint        format/varint.rs: get_varint32, get_varint64, put_varint32, put_varint64
--   Format/Fixed         the standard library's to_le_bytes and from_le_bytes
--   Format/InternalKey   format/internal_key.rs: ValueType, InternalKey, split
--   Format/BlockBuilder  format/block_builder.rs: BlockBuilder, shared_prefix_len
--   Format/Block         format/block.rs: ParsedBlock, parse_block, for_each_entry
--   Format/IndexBlock    format/block_builder.rs: IndexBlockBuilder; format/block.rs:
--                        for_each_index_entry
--   Format/Metaindex     format/properties.rs: build_metaindex_block; compaction/mod.rs:
--                        find_meta_handle
--   Format/Sorted        the sort by name in format/properties.rs
--   Format/Properties    format/properties.rs: build_properties_block and the names
--   Format/SstBuilder    format/sst_builder.rs: zero_out_seqno; in Build, build_sst
--   Format/Checksum      the checksums of format/block.rs and format/footer.rs, BlockHandle
--   Format/Trailer       format/block.rs: encode_block_with_trailer, decode_block_contents
--   Format/Footer        format/footer.rs: encode_footer_v6_plus, decode_footer
--   Merge/Cmp            merge/cmp.rs, and compare_with_prefix of merge/merger.rs
--   Merge/Source         merge/source.rs: VecSource, ArenaSource, ArenaSourceBuilder
--   Merge/LoserTree      merge/merger.rs: LoserTreeMerger
--   Merge/Heap           merge/merger.rs: HeapMerger
--   Merge/Streams        no code: what a source is going to hand out
--   Compaction/Strategy  compaction/strategy.rs: the strategies and their decide
--   Compaction/Loop      compaction/mod.rs: the closure of compact_with_strategy
--   Compaction/Whole     compaction/mod.rs: compact_with_strategy up to build_sst
--   Compaction/Sharding  compaction/mod.rs: pick_shard_boundaries, the cuts of compact_sharded
--   Compaction/Readers   no code: what a reader at a sequence number sees of a list of entries
--   Compaction/Files     compaction/mod.rs: compact, compact_with_strategy, compact_sharded
--   Sst/Reader           io/mod.rs: FileReader, BlockingFileReader; sst/mod.rs: SstReader;
--                        compaction/mod.rs: load_arena_source
--   Sst/Outcome          no code: how a call of a reader ends
--   Oracle               crates/oracle/src/lib.rs: naive_compact
--   CompactFiles         bin/compact_files.rs: the tool from its arguments to the bytes it writes
--   Fuzzer               crates/fuzzer/src/lib.rs: run_compactor, decode_sst_entries
--   Format/Error         the error texts of the format modules, as an enum
--   Prelude, Examples    shared names and lemmas; concrete inputs
-- A child module proves what its name says of its parent (Format/Varint/RoundTrip).
--
-- Conventions. A byte is a natural number, and theorems ask for bytes below 256 where that
-- matters; a buffer is a list of bytes. An i64 is its bits as a u64. An `Arc` is the value in it.
-- A u64 or u32 keeps its casts and its wrap-around; usize is unbounded, but for the lengths that
-- a reader computes from a handle, which wrap around at 64 bits. The hash functions and
-- the decompressors of other crates are parameters. `&mut` arguments are arguments and results; a
-- callback is a function on a state. A panic is `none`, an `Err` is `err`; of a reader, which has
-- both, they are `panicked` and `failed`. An `async` function answers at once, and the tasks of
-- the shards run one after the other.
--
-- Fuel. The reader of a varint goes over the bytes that are left and has no fuel. put_varint64 has
-- ten rounds, as many as a u64 has groups of seven bits. The walk over a data block or an index
-- block has one round more than the block has bytes, and each round takes a byte at least. The
-- loser tree has for its build one round more than it has leaves, for a replay as many as the
-- number of the node it starts at, and for the merge one more than there are entries, as has the
-- merge with the heap.
--
-- Not modelled: generate_sources of the fuzzer, which draws random data; bin/compactor.rs, which
-- prints what SstReader visits; the file system, of which a file's bytes are modelled; tests and
-- benchmarks.
pub mod Prelude
pub mod Format
pub mod Merge
pub mod Oracle
pub mod Sst
pub mod Fuzzer
pub mod CompactFiles
pub mod Compaction
pub mod Examples
