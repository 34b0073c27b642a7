-- ===== src/Sst/Loading.antt =====
-- Whole files: `build_sst`, then `load_arena_source` or `SstReader`.
use compactor.Prelude.{
  ◌-◌, ◌^◌, ◌≤◌, ◌<◌, ◌≡◌, refl, sym, ap, ◌∙◌, Bytes, List, [], ◌∷◌, some, length, length-append,
  arith, slice-drop, length-drop, append-nil, false, ltb, le→ltb, drop, drop-append_length,
}
use compactor.Format.Block.Entries.{fold_entries}
use compactor.Format.Checksum.{BlockHandle, Hashes}
use compactor.Format.SstBuilder.Build.{SstBuilderOptions, entries_to_write, build_sst}
use compactor.Format.SstBuilder.Built.{build_sst-IsSst}
use compactor.Format.SstBuilder.Stored.{IsStored}
use compactor.Format.SstBuilder.Whole.{IsNamed, IsSst, footer_of}
use compactor.Format.SstBuilder.Written.{weight}
use compactor.Format.Trailer.{Decompressors}
use compactor.Merge.Source.{KeyValue, ArenaSourceBuilder, new_builder, push}
use compactor.Merge.Source.Arena.{arena_of, push_all}
use compactor.Sst.Outcome.{done}
use compactor.Sst.Reader.{
  read_at_blocking, load_arena_source, read_footer, open_sst, SstReader, for_each_sst_entry,
  decode_block_in_memory, read_block_contents,
}
use compactor.Sst.RoundTrip.{
  read_index-IsSst, data_handles-IndexHolds, visit_blocks-AllStored,
  decode_block_in_memory-IsStored, read_block_contents-IsStored, reader_of, read_at_blocking_lem,
}

fold_entries-push :
    (b : ArenaSourceBuilder) (es : List KeyValue) → fold_entries push b es ≡ push_all b es
unfolding push_all
fold_entries-push b [] = refl
fold_entries-push b ((k, v) ∷ es) = fold_entries-push (push b k v) es

pub read-whole :
    (file : Bytes)
    → length file < 2 ^ 63
    → read_at_blocking (record { file = file; file_size = length file }) 0 (length file) ≡ done file
read-whole file h =
    read_at_blocking_lem file 0 (length file) h
      (slice-drop 0 file file [] (sym (append-nil file)) (omega arith))

pub read-tail :
    (file : Bytes)
    → 53 ≤ length file
    → read_at_blocking (record { file = file; file_size = length file }) (length file - 53) 53
      ≡ done (drop (length file - 53) file)
read-tail file h =
    let tail = drop (length file - 53) file in
    let n : length tail ≡ 53 = omega (arith, length-drop (length file - 53) file) in
    read_at_blocking_lem file (length file - 53) 53 (omega arith)
      (rw n at (slice-drop (length file - 53) file tail [] (sym (append-nil tail)) (omega arith)))

module _ (hashes : Hashes) (opts : SstBuilderOptions) (d : Decompressors) (file : Bytes)
    (es : List KeyValue) (t : IsSst hashes opts file es) where
  body_length : length t.body ≡ length file - 53
  body_length = omega (arith, ap length t.split_up, length-append t.body t.tail, t.tail_length)

  size : 53 ≤ length file
  size = omega (arith, ap length t.split_up, length-append t.body t.tail, t.tail_length)

  pub long : ltb (length file) 53 ≡ false
  long = le→ltb _ _ size

  pub tail_of : drop (length file - 53) file ≡ t.tail
  tail_of =
      rw (sym body_length) (ap (drop (length t.body)) t.split_up ∙ drop-append_length t.body t.tail)

  pub load_arena_source-IsSst : load_arena_source hashes d (reader_of file) ≡ done (arena_of es)
  unfolding load_arena_source arena_of
  load_arena_source-IsSst =
      let read = decode_block_in_memory hashes d file (footer_of opts t.meta_handle) in
      let reads = λ (h : BlockHandle) (raw : Bytes) (s : IsStored hashes opts file h raw).
        decode_block_in_memory-IsStored hashes opts d file t.meta_handle h raw
          (omega (arith, t.fits)) s in
      let visited =
        visit_blocks-AllStored hashes opts file read reads push t.handles t.lists new_builder
          t.stored in
      rw
        (
          load_arena_source,
          read-whole file t.fits,
          long,
          tail_of,
          t.footer,
          read_index-IsSst hashes opts file read reads es t,
          data_handles-IndexHolds t.index_raw t.handles t.index_held,
          visited,
          t.in_order,
          fold_entries-push new_builder es,
        )
        refl

  pub open_sst-IsSst :
      (r : SstReader) × (open_sst hashes d (reader_of file) ≡ done r)
      × ((S : Type 0) (f : S → Bytes → Bytes → S) (s : S)
          → for_each_sst_entry hashes d r f s ≡ (fold_entries f s es, done tt))
  unfolding open_sst for_each_sst_entry read_footer
  open_sst-IsSst =
      let read = read_block_contents hashes d (reader_of file) (footer_of opts t.meta_handle) in
      let reads = λ (h : BlockHandle) (raw : Bytes) (s : IsStored hashes opts file h raw).
        read_block_contents-IsStored hashes opts d file t.meta_handle h raw (omega (arith, t.fits))
          s in
      let r : SstReader = record {
        reader = reader_of file;
        footer = footer_of opts t.meta_handle;
        metaindex = t.meta_held.block;
        index = t.index_held.block;
      } in
      (
        r,
        rw
            (
              read_footer,
              long,
              read-tail file (omega (arith, size)),
              tail_of,
              t.footer,
              read_index-IsSst hashes opts file read reads es t,
            )
            refl,
        λ S f s.
            rw
              (
                for_each_sst_entry,
                data_handles-IndexHolds t.index_raw t.handles t.index_held,
                visit_blocks-AllStored hashes opts file read reads f t.handles t.lists s t.stored,
                t.in_order,
              )
              refl,
      )

module _ (hashes : Hashes) (opts : SstBuilderOptions) (d : Decompressors)
    (entries es : List KeyValue) (named : IsNamed opts)
    (written : entries_to_write opts.external_sst_global_seqno entries ≡ some es)
    (light : weight es < 2 ^ 31) where
  -- Whatever the hash functions and the decompressors, `build_sst` makes a file of entries that weigh
  -- less than 2 GiB (of an entry, twice the key, the value and 100 bytes), under options whose names
  -- are shorter than 2 GiB together and whose checksum context is a u32; and `load_arena_source` of
  -- that file ends without an error or a panic, with the source that pushing the entries in their
  -- order builds. Where the options ask for sequence numbers of 0, no key is too short to be rewritten,
  -- and the entries are the rewritten ones.
  pub load_arena_source-build_sst :
      (file : Bytes) × (build_sst hashes opts entries ≡ some file)
      × (load_arena_source hashes d (reader_of file) ≡ done (arena_of es))
  load_arena_source-build_sst =
      let (file, built, t) = build_sst-IsSst hashes opts entries es named written light in
      (file, built, load_arena_source-IsSst hashes opts d file es t)

  -- `build_sst` makes a file of entries that weigh less than 2 GiB (of an entry, twice the key, the
  -- value and 100 bytes), under options whose names are shorter than 2 GiB together and whose checksum
  -- context is a u32. An `SstReader` opens the file, and for every callback `for_each_entry` of that
  -- reader calls it on the entries, rewritten where the options ask for it, in their order, and ends
  -- well; no key is too short to be rewritten there.
  pub for_each_sst_entry-build_sst :
      (file : Bytes) × (r : SstReader) × (build_sst hashes opts entries ≡ some file)
      × (open_sst hashes d (reader_of file) ≡ done r)
      × ((S : Type 0) (f : S → Bytes → Bytes → S) (s : S)
          → for_each_sst_entry hashes d r f s ≡ (fold_entries f s es, done tt))
  for_each_sst_entry-build_sst =
      let (file, built, t) = build_sst-IsSst hashes opts entries es named written light in
      let (r, opened, walks) = open_sst-IsSst hashes opts d file es t in
      (file, r, built, opened, walks)
