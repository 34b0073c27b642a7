-- ===== src/Format/SstBuilder/Built.antt =====
-- `build_sst` from the entries to the whole file.
use compactor.Prelude.{◌^◌, ◌<◌, ◌≡◌, refl, sym, Bytes, List, [], some, none, arith, subst}
use compactor.Format.Block.RoundTrip as Data
use compactor.Format.Block.RoundTrip.{new-fresh}
use compactor.Format.Checksum.{Hashes}
use compactor.Format.IndexBlock.Building.{add_index_all}
use compactor.Format.IndexBlock.Holds.{IsIndexed, add_index_all-IsIndexed}
use compactor.Format.IndexBlock.RoundTrip as Index
use compactor.Format.IndexBlock.RoundTrip.{new_index_builder-fresh}
use compactor.Format.SstBuilder.Build.{
  SstBuilderOptions, Assembly, entries_to_write, build_entries, build_sst,
}
use compactor.Format.SstBuilder.Loop.{
  IsAssembled, fresh-IsFilled, add_all_to_file-IsAssembled, flush_pending-IsWritten,
}
use compactor.Format.SstBuilder.Whole.{IsNamed, IsSst, finish_file-IsSst}
use compactor.Format.SstBuilder.Written.{weight}
use compactor.Merge.Source.{KeyValue}

fresh-IsIndexed : IsIndexed 1 [] (Index.fresh 1)
unfolding add_index_all
fresh-IsIndexed =
    let (b, t) = add_index_all-IsIndexed 1 [] (omega arith) tt tt (omega arith) in
    let same : Index.fresh 1 ≡ b = cc t.taken in subst (IsIndexed 1 []) (sym same) t

abbrev empty_assembly : Assembly
empty_assembly = record {
  file = [];
  index_builder = Index.fresh 1;
  block_builder = Data.fresh 16;
  pending_last_key = none;
  raw_key_size = 0;
  raw_value_size = 0;
}

module _ (hashes : Hashes) (opts : SstBuilderOptions) where
  empty_assembly-IsAssembled : IsAssembled hashes opts empty_assembly []
  empty_assembly-IsAssembled = record {
    hs = [];
    ess = [];
    cur = [];
    pending = refl;
    filled = fresh-IsFilled;
    written = record { stored = tt; indexed = fresh-IsIndexed; fits = tt; chained = tt; ends = tt };
    all_done = refl;
    small = omega arith;
  }

  build_entries-IsSst :
      (entries : List KeyValue)
      → IsNamed opts
      → weight entries < 2 ^ 31
      → (file : Bytes) × (build_entries hashes opts entries ≡ some file)
        × IsSst hashes opts file entries
  unfolding build_entries
  build_entries-IsSst entries named h =
      let (st, added, t) =
        add_all_to_file-IsAssembled hashes opts entries empty_assembly [] empty_assembly-IsAssembled
          h in
      let (file, b, hs, ess, flushed, w, all, small) =
        flush_pending-IsWritten hashes opts st entries t h in
      let (whole, built, sst) =
        finish_file-IsSst hashes opts entries st file b hs ess named w (omega arith) in
      (
        whole,
        rw (new_index_builder-fresh 1 (omega arith), new-fresh 16 (omega arith), added, flushed)
            built,
        subst (IsSst hashes opts whole) all sst,
      )

  -- The entries to write are the given ones or, where the options ask for sequence numbers of 0, the
  -- given ones with rewritten keys; no key is too short to be rewritten there. Whatever the hash
  -- functions, `build_sst` returns a file, and no assertion fails, where the entries to write weigh
  -- less than 2 GiB (of an entry, twice the key, the value and 100 bytes), the names in the options
  -- are shorter than 2 GiB together, and the checksum context is a u32. The file's footer decodes to
  -- the options' kind of checksum and to a metaindex block; there the index block is found, it parses
  -- and lists the data blocks, each of which stands with its trailer where its handle says, parses,
  -- and holds its share of the entries to write: all of them, in their order.
  pub build_sst-IsSst :
      (entries es : List KeyValue)
      → IsNamed opts
      → entries_to_write opts.external_sst_global_seqno entries ≡ some es
      → weight es < 2 ^ 31
      → (file : Bytes) × (build_sst hashes opts entries ≡ some file) × IsSst hashes opts file es
  unfolding build_sst
  build_sst-IsSst entries es named written h =
      let (file, built, sst) = build_entries-IsSst es named h in
      (file, rw (written, built) refl, sst)
