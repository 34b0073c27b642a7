-- ===== src/Examples/Sst.antt =====
-- Whole files: built, read and compacted.
use compactor.Prelude.{
  ◌≡◌, refl, Bytes, List, [], ◌∷◌, some, none, length, map, replicate, arith, slice,
}
use compactor.Format.Block.Entries.{fold_entries}
use compactor.Format.Block.Holds.{Holds}
use compactor.Format.Error.{file_too_short}
use compactor.Format.Properties.{
  PropertiesInput, build_properties_block, as_bytes, bytewise_comparator_name,
}
use compactor.Format.Properties.Contents.{build_properties_block-contents}
use compactor.Format.Properties.Lookup.{HasNumbers, HasTexts}
use compactor.Oracle.TreeMap.{Ascending}
use compactor.Format.SstBuilder.Build.{default_options, build_sst, entries_to_write}
use compactor.Format.SstBuilder.Built.{build_sst-IsSst}
use compactor.Format.SstBuilder.Whole.{IsSst}
use compactor.Merge.Source.{KeyValue}
use compactor.Merge.Source.Arena.{arena_of}
use compactor.Merge.Streams.{all_entries}
use compactor.Compaction.Files.{CompactionOptions, compact, compact_with_strategy}
use compactor.Compaction.Files.Outputs.{
  load_arena_source-compact_with_strategy, compact-newest-live,
}
use compactor.Compaction.Loop.{Entry}
use compactor.Compaction.Readers.{live}
use compactor.Compaction.Readers.Newest.{newest}
use compactor.Compaction.Strategy.{snapshot_aware, new_snapshot_aware}
use compactor.Compaction.Whole.{merged_output}
use compactor.Sst.Agreement.{load_arena_source-agrees, load_with_reader}
use compactor.Sst.Loading.{load_arena_source-build_sst, for_each_sst_entry-build_sst}
use compactor.Sst.RoundTrip.{reader_of}
use compactor.Sst.Outcome.{done, failed, panicked, result_of}
use compactor.Sst.Reader.{
  SstReader, load_arena_source, open_sst, for_each_sst_entry, read_footer, read_at_blocking,
}
use compactor.Fuzzer.{run_compactor}
use compactor.Fuzzer.Differential.{run_compactor-naive_compact}
use compactor.Oracle.{naive_compact}
use compactor.Examples.Oracle.{versioned}
use compactor.Examples.File.{sums, no_decompressors}
use compactor.Examples.Whole.{
  packed, sources, sources-Compactable, sources-IsVersioned, sources-Covers,
}

abbrev two_entries : List KeyValue
two_entries = (packed b'a' 1 7, 20 ∷ []) ∷ (packed b'b' 0 8, []) ∷ []

written : entries_to_write none two_entries ≡ some two_entries
unfolding entries_to_write
written = refl

build_sst-IsSst_example :
    (file : Bytes) × (build_sst sums default_options two_entries ≡ some file)
    × IsSst sums default_options file two_entries
build_sst-IsSst_example =
    build_sst-IsSst sums default_options two_entries two_entries (omega arith, omega arith) written
      (omega arith)

load_arena_source-build_sst_example :
    (file : Bytes) × (build_sst sums default_options two_entries ≡ some file)
    × (load_arena_source sums no_decompressors (reader_of file) ≡ done (arena_of two_entries))
load_arena_source-build_sst_example =
    load_arena_source-build_sst sums default_options no_decompressors two_entries two_entries
      (omega arith, omega arith) written (omega arith)

for_each_sst_entry-build_sst_example :
    (file : Bytes) × (r : SstReader) × (build_sst sums default_options two_entries ≡ some file)
    × (open_sst sums no_decompressors (reader_of file) ≡ done r)
    × ((S : Type 0) (f : S → Bytes → Bytes → S) (s : S)
        → for_each_sst_entry sums no_decompressors r f s ≡ (fold_entries f s two_entries, done tt))
for_each_sst_entry-build_sst_example =
    for_each_sst_entry-build_sst sums default_options no_decompressors two_entries two_entries
      (omega arith, omega arith) written (omega arith)

-- A file that is shorter than a footer.
open_short : open_sst sums no_decompressors (reader_of (1 ∷ 2 ∷ 3 ∷ [])) ≡ failed file_too_short
unfolding open_sst read_footer
open_short = refl

load_short : load_arena_source sums no_decompressors (reader_of (1 ∷ 2 ∷ 3 ∷ [])) ≡ panicked
unfolding load_arena_source read_at_blocking slice
load_short = refl

abbrev zeros : Bytes
zeros = replicate 60 0

load_arena_source-agrees_example :
    result_of (load_arena_source sums no_decompressors (reader_of zeros))
    ≡ result_of (load_with_reader sums no_decompressors (reader_of zeros))
load_arena_source-agrees_example =
    load_arena_source-agrees sums no_decompressors zeros (omega arith) (omega arith)

abbrev some_properties : PropertiesInput
some_properties = record {
  num_entries = 3;
  raw_key_size = 30;
  raw_value_size = 900;
  data_size = 1000;
  index_size = 40;
  comparator_name = bytewise_comparator_name;
  column_family_id = 0;
  column_family_name = as_bytes "default";
  external_sst_global_seqno = some 5;
}

build_properties_block-contents_example :
    (raw : Bytes) × (es : List (Bytes × Bytes)) × (build_properties_block some_properties
      ≡ some raw)
    × Holds raw es
    × Ascending es
    × HasNumbers some_properties es
    × HasTexts some_properties es
    × (length es ≡ 13)
build_properties_block-contents_example =
    build_properties_block-contents some_properties (omega arith)
      (omega arith, omega arith, omega arith, omega arith, omega arith, omega arith)

abbrev pub plain_options : CompactionOptions
plain_options = record { sst_builder = default_options }

load_arena_source-compact_with_strategy_example :
    (out : List Entry) × (file : Bytes) × (merged_output snapshot_aware
        (new_snapshot_aware 5)
        (map arena_of sources)
      ≡ some out)
    × (compact_with_strategy sums
          (map arena_of sources)
          plain_options
          snapshot_aware
          (new_snapshot_aware 5)
        ≡ some file)
    × (load_arena_source sums no_decompressors (reader_of file) ≡ done (arena_of out))
load_arena_source-compact_with_strategy_example =
    load_arena_source-compact_with_strategy sums no_decompressors plain_options
      ((omega arith, omega arith), refl) (map arena_of sources) sources sources-Compactable
      (omega arith) snapshot_aware (new_snapshot_aware 5)

compact-newest-live_example :
    (file : Bytes) × (out : List Entry) × (compact sums (map arena_of sources) plain_options
      ≡ some file)
    × (load_arena_source sums no_decompressors (reader_of file) ≡ done (arena_of out))
    × (newest (b'a' ∷ []) 9 out ≡ live (newest (b'a' ∷ []) 9 (all_entries sources)))
compact-newest-live_example =
    compact-newest-live sums no_decompressors plain_options ((omega arith, omega arith), refl)
      (map arena_of sources) sources sources-Compactable (omega arith) (b'a' ∷ []) 9
      sources-IsVersioned sources-Covers

run_compactor-naive_compact_example :
    (out : List KeyValue) × (run_compactor sums no_decompressors sources ≡ some out)
    × (naive_compact sources ≡ some out)
run_compactor-naive_compact_example =
    run_compactor-naive_compact sums no_decompressors sources sources-Compactable versioned
      (omega arith)
