-- ===== src/Compaction/Files/Outputs.antt =====
-- The output files, as the entries that are loaded from them.
use compactor.Prelude.{ℕ, ◌^◌, ◌<◌, ◌≡◌, refl, Bytes, List, some, none, arith}
use compactor.Format.Checksum.{Hashes}
use compactor.Format.SstBuilder.Build.{SstBuilderOptions, entries_to_write}
use compactor.Format.SstBuilder.Whole.{IsNamed}
use compactor.Format.SstBuilder.Written.{weight}
use compactor.Format.Trailer.{Decompressors}
use compactor.Merge.Source.{KeyValue, ArenaSource}
use compactor.Merge.Source.Arena.{arena_of}
use compactor.Merge.Streams.{all_entries}
use compactor.Compaction.Files.{CompactionOptions, compact_with_strategy, compact}
use compactor.Compaction.Files.Weight.{weight-perm, weight-compacted}
use compactor.Compaction.Loop.{Entry, compacted}
use compactor.Compaction.Readers.{Covers, live}
use compactor.Compaction.Readers.Newest.{newest}
use compactor.Compaction.Strategy.{CompactionStrategy, bottommost}
use compactor.Compaction.Whole.{merged_output}
use compactor.Compaction.Whole.Readers.{IsVersioned, sources-newest-live}
use compactor.Compaction.Whole.Sources.{Compactable, merged_output-compacted}
use compactor.Sst.Loading.{load_arena_source-build_sst}
use compactor.Sst.RoundTrip.{reader_of}
use compactor.Sst.Outcome.{done}
use compactor.Sst.Reader.{load_arena_source}

-- The options of a file that takes its entries as they are.
abbrev pub IsPlain : SstBuilderOptions → Type 0
IsPlain opts = IsNamed opts × (opts.external_sst_global_seqno ≡ none)

module _ (hashes : Hashes) (d : Decompressors) (opts : CompactionOptions)
    (plain : IsPlain opts.sst_builder) (sources : List ArenaSource) (ess : List (List KeyValue))
    (c : Compactable sources ess) (light : weight (all_entries ess) < 2 ^ 31) where
  -- Whatever the strategy, the hash functions and the decompressors, a compaction of sources in order
  -- whose entries weigh less than 2 GiB (of an entry, twice the key, the value and 100 bytes), to a
  -- file that takes its entries as they are and whose names are shorter than 2 GiB together, does not
  -- panic: the strategy's output is written to a file from which `load_arena_source` gets just that
  -- output, in its order.
  pub load_arena_source-compact_with_strategy :
      (strat : CompactionStrategy) (s : strat.State)
      → (out : List Entry) × (file : Bytes) × (merged_output strat s sources ≡ some out)
        × (compact_with_strategy hashes sources opts strat s ≡ some file)
        × (load_arena_source hashes d (reader_of file) ≡ done (arena_of out))
  unfolding compact_with_strategy entries_to_write
  load_arena_source-compact_with_strategy strat s =
      let (merged, e, p, _) = merged_output-compacted strat s sources ess c in
      let out = compacted strat s merged in
      let written : entries_to_write opts.sst_builder.external_sst_global_seqno out ≡ some out =
        rw plain.1 refl in
      let (file, built, loaded) =
        load_arena_source-build_sst hashes opts.sst_builder d out out plain.0 written
          (omega (arith, weight-compacted strat s merged, weight-perm p)) in
      (out, file, e, rw e built, loaded)

  -- A compaction of sources in order whose entries weigh less than 2 GiB (of an entry, twice the key,
  -- the value and 100 bytes), none of whose versions of the user key has the sequence number of
  -- another, to a file that takes its entries as they are and whose names are shorter than 2 GiB
  -- together, makes a file; in the entries that are loaded from it, a reader that is at least as new
  -- as all versions of the user key finds the newest of them in the sources, or nothing where that is
  -- a tombstone.
  pub compact-newest-live :
      (u : Bytes) (r : ℕ)
      → IsVersioned u (all_entries ess)
      → Covers u r (all_entries ess)
      → (file : Bytes) × (out : List Entry) × (compact hashes sources opts ≡ some file)
        × (load_arena_source hashes d (reader_of file) ≡ done (arena_of out))
        × (newest u r out ≡ live (newest u r (all_entries ess)))
  unfolding compact
  compact-newest-live u r versioned covers =
      let (out, file, e, made, loaded) = load_arena_source-compact_with_strategy bottommost tt in
      let (out', e', agrees) = sources-newest-live u sources ess c versioned r covers in
      let same : out' ≡ out = cc in (file, out, made, loaded, rw same at agrees)
