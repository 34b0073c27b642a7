-- ===== src/Format/SstBuilder/Build.antt =====
-- `build_sst` of crates/compactor/src/format/sst_builder.rs. `none` is a panic; a `usize` is cast to
-- u64 where the source does, and the sums of sizes wrap around.
use compactor.Prelude.{
  ℕ, ◌+◌, Bytes, List, [], ◌∷◌, ◌++◌, Option, none, some, ◌>>=◌, length, leb, if◌then◌else◌,
}
use compactor.Prelude.Bits.{u64}
use compactor.Format.BlockBuilder.{BlockBuilder, new, add, finish, is_empty, current_size_estimate}
use compactor.Format.Checksum.{BlockHandle, ChecksumType, xx_h3, Hashes}
use compactor.Format.Footer.{encode_footer_v6_plus}
use compactor.Format.IndexBlock.{
  IndexBlockBuilder, new_index_builder, add_index_entry, finish_index,
}
use compactor.Format.Metaindex.{build_metaindex_block}
use compactor.Format.Properties.{
  bytewise_comparator_name, as_bytes, build_properties_block, properties_block_name,
  index_block_name,
}
use compactor.Format.SstBuilder.{zero_out_seqno}
use compactor.Format.Trailer.{encode_block_with_trailer}
use compactor.Merge.Source.{KeyValue}

abbrev pub data_block_restart_interval : ℕ
data_block_restart_interval = 16

abbrev pub index_block_restart_interval : ℕ
index_block_restart_interval = 1

abbrev pub target_block_size : ℕ
target_block_size = 4096

abbrev pub format_version : ℕ
format_version = 7

pub record SstBuilderOptions : Type 0 where
  pub checksum_type : ChecksumType
  pub comparator_name : Bytes
  pub column_family_id : ℕ
  pub column_family_name : Bytes
  pub base_context_checksum : ℕ
  pub external_sst_global_seqno : Option ℕ

abbrev pub default_options : SstBuilderOptions
default_options = record {
  checksum_type = xx_h3;
  comparator_name = bytewise_comparator_name;
  column_family_id = 0;
  column_family_name = as_bytes "default";
  base_context_checksum = 1;
  external_sst_global_seqno = none;
}

unfoldable pub zero_out_all : List KeyValue → Option (List KeyValue)
zero_out_all [] = some []
zero_out_all ((k, v) ∷ entries) = do
  k' ← zero_out_seqno k
  rest ← zero_out_all entries
  some ((k', v) ∷ rest)

-- `rewritten`, or the entries as they are.
unfoldable pub entries_to_write : Option ℕ → List KeyValue → Option (List KeyValue)
entries_to_write none entries = some entries
entries_to_write (some _) entries = zero_out_all entries

-- What the loop over the entries changes.
pub record Assembly : Type 0 where
  pub file : Bytes
  pub index_builder : IndexBlockBuilder
  pub block_builder : BlockBuilder
  pub pending_last_key : Option Bytes
  pub raw_key_size : ℕ
  pub raw_value_size : ℕ

module _ (hashes : Hashes) (opts : SstBuilderOptions) where
  -- A block with its trailer at the end of the file, and its handle.
  unfoldable pub append_block : Bytes → Bytes → Bytes × BlockHandle
  append_block file raw =
      let offset = u64 (length file) in
      (
        file
            ++ encode_block_with_trailer hashes opts.checksum_type opts.base_context_checksum raw
                offset,
        record { offset = offset; size = u64 (length raw) },
      )

  unfoldable pub flush_data_block :
      Bytes → IndexBlockBuilder → BlockBuilder → Bytes → Option (Bytes × IndexBlockBuilder)
  flush_data_block file index_builder block_builder last_key =
      if is_empty block_builder
      then some (file, index_builder)
      else let (file', handle) = append_block file (finish block_builder) in
        do
          index_builder' ← add_index_entry index_builder last_key handle
          some (file', index_builder')

  -- The body of the loop; `pending_last_key` is the key that was just put in it.
  unfoldable pub add_to_file : Assembly → KeyValue → Option Assembly
  add_to_file st (key, value) = do
    block_builder ← add st.block_builder key value
    let raw_key_size = u64 (st.raw_key_size + length key)
    let raw_value_size = u64 (st.raw_value_size + length value)
    if leb target_block_size (current_size_estimate block_builder)
        then (do
          next ← new data_block_restart_interval
          (file, index_builder) ← flush_data_block st.file st.index_builder block_builder key
          some (record {
            file = file;
            index_builder = index_builder;
            block_builder = next;
            pending_last_key = none;
            raw_key_size = raw_key_size;
            raw_value_size = raw_value_size;
          }))
        else some (record st {
          block_builder = block_builder;
          pending_last_key = some key;
          raw_key_size = raw_key_size;
          raw_value_size = raw_value_size;
        })

  unfoldable pub add_all_to_file : Assembly → List KeyValue → Option Assembly
  add_all_to_file st [] = some st
  add_all_to_file st (e ∷ entries) = do st' ← add_to_file st e; add_all_to_file st' entries

  unfoldable pub flush_pending : Assembly → Option (Bytes × IndexBlockBuilder)
  flush_pending st = elim st.pending_last_key [
    | none ↦ some (st.file, st.index_builder)
    | some last_key ↦ flush_data_block st.file st.index_builder st.block_builder last_key
  ]

  -- What follows the data blocks: index, properties, metaindex and footer.
  unfoldable pub finish_file : List KeyValue → Assembly → Bytes → IndexBlockBuilder → Option Bytes
  finish_file entries st file index_builder = do
    let index_raw = finish_index index_builder
    let (file₁, index_handle) = append_block file index_raw
    props_raw ← build_properties_block (record {
      num_entries = u64 (length entries);
      raw_key_size = st.raw_key_size;
      raw_value_size = st.raw_value_size;
      data_size = u64 (length file);
      index_size = u64 (length index_raw);
      comparator_name = opts.comparator_name;
      column_family_id = opts.column_family_id;
      column_family_name = opts.column_family_name;
      external_sst_global_seqno = opts.external_sst_global_seqno;
    })
    let (file₂, props_handle) = append_block file₁ props_raw
    metaindex_raw ←
        build_metaindex_block
          ((properties_block_name, props_handle) ∷ (index_block_name, index_handle) ∷ [])
    let (file₃, metaindex_handle) = append_block file₂ metaindex_raw
    footer ←
        encode_footer_v6_plus hashes format_version opts.checksum_type metaindex_handle
          opts.base_context_checksum (u64 (length file₃))
    some (file₃ ++ footer)

  unfoldable pub build_entries : List KeyValue → Option Bytes
  build_entries entries = do
    index_builder ← new_index_builder index_block_restart_interval
    block_builder ← new data_block_restart_interval
    st ←
        add_all_to_file
          (record {
            file = [];
            index_builder = index_builder;
            block_builder = block_builder;
            pending_last_key = none;
            raw_key_size = 0;
            raw_value_size = 0;
          })
          entries
    (file, index_builder') ← flush_pending st
    finish_file entries st file index_builder'

  unfoldable pub build_sst : List KeyValue → Option Bytes
  build_sst entries = do
    entries' ← entries_to_write opts.external_sst_global_seqno entries
    build_entries entries'
