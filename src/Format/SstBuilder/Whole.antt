-- ===== src/Format/SstBuilder/Whole.antt =====
-- What `build_sst` puts behind the data blocks, and the whole file as a reader needs it.
use compactor.Prelude.{
  ◌+◌, ◌^◌, ◌<◌, ◌≡◌, refl, Bytes, List, ◌++◌, some, none, length, length-append, arith, All,
}
use compactor.Prelude.Bits.{u64}
use compactor.Format.Error.{ok}
use compactor.Format.Block.Holds.{Holds}
use compactor.Format.Checksum.{BlockHandle, Hashes}
use compactor.Format.Footer.{Footer, block_based_table_magic, decode_footer}
use compactor.Format.Footer.RoundTrip.{decode_footer-encode_footer_v6_plus}
use compactor.Format.IndexBlock.{IndexBlockBuilder, finish_index}
use compactor.Format.IndexBlock.Encoding.{IndexEntry}
use compactor.Format.IndexBlock.Holds.{IndexHolds, index_room}
use compactor.Format.Metaindex.{find_meta_handle}
use compactor.Format.Metaindex.RoundTrip.{MetaFits}
use compactor.Format.Properties.{PropertiesInput, index_block_name}
use compactor.Format.Properties.RoundTrip.{build_properties_block-Holds}
use compactor.Format.SstBuilder.Build.{SstBuilderOptions, Assembly, append_block, finish_file}
use compactor.Format.SstBuilder.Meta.{two_names, two_entries, build_metaindex_block-two_names}
use compactor.Format.SstBuilder.Stored.{
  AllStored, AllStored-append, IsStored, IsStored-append, append_block-IsStored,
  append_block-handle, length-append_block, with_trailer,
}
use compactor.Format.SstBuilder.Written.{IsWritten}
use compactor.Merge.Source.{KeyValue}
use compactor.Merge.Streams.{all_entries}

-- The names in the options are not too long, and the context of the checksums is a u32.
abbrev pub IsNamed : SstBuilderOptions → Type 0
IsNamed opts =
    (length opts.comparator_name + length opts.column_family_name < 2 ^ 31)
    × (opts.base_context_checksum < 2 ^ 32)

abbrev pub footer_of : SstBuilderOptions → BlockHandle → Footer
footer_of opts h = record {
  table_magic_number = block_based_table_magic;
  format_version = 7;
  checksum_type = opts.checksum_type;
  metaindex_handle = h;
  index_handle = none;
  block_trailer_size = 5;
  base_context_checksum = opts.base_context_checksum;
}

module _ (hashes : Hashes) (opts : SstBuilderOptions) where
  -- The file ends in a footer that leads to the metaindex, the index and blocks of these entries.
  pub record IsSst (file : Bytes) (es : List KeyValue) : Type 1 where
    pub body : Bytes
    pub tail : Bytes
    pub split_up : file ≡ body ++ tail
    pub tail_length : length tail ≡ 53
    pub fits : length file < 2 ^ 63
    pub meta_handle : BlockHandle
    pub meta_raw : Bytes
    pub footer : decode_footer hashes tail (length file) ≡ ok (footer_of opts meta_handle)
    pub meta : IsStored hashes opts file meta_handle meta_raw
    pub props_handle : BlockHandle
    pub index_handle : BlockHandle
    pub meta_held : Holds meta_raw (two_entries props_handle index_handle)
    pub index_raw : Bytes
    pub finds : find_meta_handle meta_held.block index_block_name ≡ ok (some index_handle)
    pub index : IsStored hashes opts file index_handle index_raw
    pub handles : List IndexEntry
    pub lists : List (List KeyValue)
    pub index_held : IndexHolds index_raw handles
    pub stored : AllStored hashes opts file handles lists
    pub in_order : all_entries lists ≡ es

  pub finish_file-IsSst :
      (entries : List KeyValue) (st : Assembly) (file : Bytes) (b : IndexBlockBuilder)
      (hs : List IndexEntry) (ess : List (List KeyValue))
      → IsNamed opts
      → IsWritten hashes opts file b hs ess
      → length file + index_room hs < 2 ^ 31
      → (whole : Bytes) × (finish_file hashes opts entries st file b ≡ some whole)
        × IsSst whole (all_entries ess)
  unfolding finish_file append_block
  finish_file-IsSst entries st file b hs ess (names, base) w small =
      let index_raw = finish_index b in
      let (file₁, index_handle) = append_block hashes opts file index_raw in
      let props : PropertiesInput = record {
        num_entries = u64 (length entries);
        raw_key_size = st.raw_key_size;
        raw_value_size = st.raw_value_size;
        data_size = u64 (length file);
        index_size = u64 (length index_raw);
        comparator_name = opts.comparator_name;
        column_family_id = opts.column_family_id;
        column_family_name = opts.column_family_name;
        external_sst_global_seqno = opts.external_sst_global_seqno;
      } in
      let (props_raw, props_built, _, props_short) = build_properties_block-Holds props names in
      let (file₂, props_handle) = append_block hashes opts file₁ props_raw in
      let n₀ = w.indexed.bounded in
      let n₁ = length-append_block hashes opts file index_raw in
      let n₂ = length-append_block hashes opts file₁ props_raw in
      let (i₁, i₂) = append_block-handle hashes opts file index_raw (omega arith) (omega arith) in
      let (p₁, p₂) = append_block-handle hashes opts file₁ props_raw (omega arith) (omega arith) in
      let entry_fits : All MetaFits (two_names props_handle index_handle) =
        ((omega arith, omega arith, omega arith), ((omega arith, omega arith, omega arith), tt)) in
      let (meta_raw, meta_held, meta_built, found, short) =
        build_metaindex_block-two_names props_handle index_handle entry_fits in
      let (file₃, meta_handle) = append_block hashes opts file₂ meta_raw in
      let n₃ = length-append_block hashes opts file₂ meta_raw in
      let (m₁, m₂) = append_block-handle hashes opts file₂ meta_raw (omega arith) (omega arith) in
      let (footer, footer_built, n₄, decoded) =
        decode_footer-encode_footer_v6_plus hashes 7 opts.checksum_type meta_handle
          opts.base_context_checksum (length file₃) (omega arith) (omega arith) base (omega arith)
          (omega arith) (omega arith) in
      let n₅ = length-append file₃ footer in
      let size : length (file₃ ++ footer) ≡ length file₃ + 53 = omega arith in
      let offset : u64 (length file₃) ≡ length file₃ = omega arith in
      let trailer = λ (raw : Bytes) (f : Bytes). with_trailer hashes opts raw (u64 (length f)) in
      (
        file₃ ++ footer,
        rw (props_built, meta_built, offset, footer_built) refl,
        record {
          body = file₃;
          tail = footer;
          split_up = refl;
          tail_length = n₄;
          fits = omega arith;
          meta_handle = meta_handle;
          meta_raw = meta_raw;
          footer = rw size decoded;
          meta =
              IsStored-append hashes opts file₃ meta_handle meta_raw footer
                (append_block-IsStored hashes opts file₂ meta_raw (omega arith) (omega arith));
          props_handle = props_handle;
          meta_held = meta_held;
          index_handle = index_handle;
          index_raw = index_raw;
          finds = found;
          index = IsStored-append hashes opts file₃ index_handle index_raw footer (
              IsStored-append hashes opts file₂ index_handle index_raw (trailer meta_raw file₂) (
                IsStored-append hashes opts file₁ index_handle index_raw (trailer props_raw file₁)
                  (append_block-IsStored hashes opts file index_raw (omega arith) (omega arith))));
          handles = hs;
          lists = ess;
          index_held = w.indexed.held;
          stored = AllStored-append hashes opts file₃ hs ess footer (
              AllStored-append hashes opts file₂ hs ess (trailer meta_raw file₂) (
                AllStored-append hashes opts file₁ hs ess (trailer props_raw file₁)
                  (AllStored-append hashes opts file hs ess (trailer index_raw file) w.stored)));
          in_order = refl;
        },
      )
