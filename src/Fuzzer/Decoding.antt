-- ===== src/Fuzzer/Decoding.antt =====
-- What `decode_sst_entries` gets of a file that `build_sst` made.
use compactor.Prelude.{
  ◌^◌, ◌<◌, ◌≡◌, refl, sym, ap, ◌∙◌, Bytes, List, [], ◌∷◌, ◌++◌, some, none, length, arith, All,
  append_assoc, append-nil,
}
use compactor.Prelude.Bits.{u64}
use compactor.Format.Block.Entries.{fold_entries}
use compactor.Format.Checksum.{BlockHandle, Hashes}
use compactor.Format.Metaindex.{meta_entry}
use compactor.Format.Metaindex.RoundTrip.{meta_entry-varint, decode_block_handle-varint}
use compactor.Format.Properties.{index_block_name}
use compactor.Format.SstBuilder.Build.{SstBuilderOptions}
use compactor.Format.SstBuilder.Meta.{two_entries}
use compactor.Format.SstBuilder.Stored.{IsStored}
use compactor.Format.SstBuilder.Whole.{IsSst, footer_of}
use compactor.Format.Trailer.{Decompressors}
use compactor.Compaction.Loop.{bytes_eq}
use compactor.Merge.Source.{KeyValue}
use compactor.Compaction.Whole.Sources.{IsKeyed}
use compactor.Oracle.Distinct.{split_keyed, stripped}
use compactor.Sst.Loading.{long, tail_of}
use compactor.Sst.Reader.{decode_block_in_memory}
use compactor.Sst.RoundTrip.{
  read_block-IsStored, data_handles-IndexHolds, visit_blocks-AllStored,
  decode_block_in_memory-IsStored, stored_within,
}
use compactor.Fuzzer.{on_meta_entry, push_pair, sort_pairs, decode_sst_entries}

index_found :
    (props index : BlockHandle)
    → index.offset < 2 ^ 64
    → index.size < 2 ^ 64
    → fold_entries on_meta_entry (some none) (two_entries props index) ≡ some (some index)
unfolding on_meta_entry bytes_eq meta_entry
index_found props index ho hs =
    let value = ap (λ (e : Bytes × Bytes). e.1) (meta_entry-varint (index_block_name, index)) in
    rw (value, decode_block_handle-varint index ho hs) refl

push_pair-stripped :
    (out es : List KeyValue)
    → All IsKeyed es
    → fold_entries push_pair (some out) es ≡ some (out ++ stripped es)
unfolding push_pair
push_pair-stripped out [] h = ap some (sym (append-nil out))
push_pair-stripped out ((k, v) ∷ es) (h, hs) =
    let (ik, p, same) = split_keyed (k, v) h in
    rw (p, same)
      (push_pair-stripped (out ++ _ ∷ []) es hs ∙ ap some (append_assoc out (_ ∷ []) (stripped es)))

module _ (hashes : Hashes) (opts : SstBuilderOptions) (d : Decompressors) (file : Bytes)
    (es : List KeyValue) (t : IsSst hashes opts file es) where
  pub decode_sst_entries-IsSst :
      All IsKeyed es → decode_sst_entries hashes d file ≡ some (sort_pairs (stripped es))
  unfolding decode_sst_entries
  decode_sst_entries-IsSst keyed =
      let read = decode_block_in_memory hashes d file (footer_of opts t.meta_handle) in
      let reads = λ (h : BlockHandle) (raw : Bytes) (s : IsStored hashes opts file h raw).
        decode_block_in_memory-IsStored hashes opts d file t.meta_handle h raw
          (omega (arith, t.fits)) s in
      let size : u64 (length file) ≡ length file = omega (arith, t.fits) in
      let within =
        stored_within hashes opts d file t.meta_handle t.index_handle t.index_raw t.index in
      let found =
        index_found t.props_handle t.index_handle (omega (arith, t.fits, within))
          (omega (arith, t.fits, within)) in
      rw
        (
          decode_sst_entries,
          long hashes opts d file es t,
          tail_of hashes opts d file es t,
          size,
          t.footer,
          read_block-IsStored hashes opts file read reads t.meta_handle t.meta_raw t.meta_held.block
              t.meta t.meta_held.parses,
          t.meta_held.walks _ on_meta_entry (some none),
          found,
          read_block-IsStored hashes opts file read reads t.index_handle t.index_raw
              t.index_held.block t.index t.index_held.parses,
          data_handles-IndexHolds t.index_raw t.handles t.index_held,
          visit_blocks-AllStored hashes opts file read reads push_pair t.handles t.lists (some [])
              t.stored,
          t.in_order,
          push_pair-stripped [] es keyed,
        )
        refl
