-- ===== src/Examples/CompactFiles.antt =====
-- The tool on two small files.
use compactor.Prelude.{
  ◌≡◌, refl, false, Bytes, List, [], ◌∷◌, Option, none, All, arith, if◌then◌else◌,
}
use compactor.Format.Properties.{as_bytes}
use compactor.Format.SstBuilder.Build.{default_options, build_sst}
use compactor.Merge.Source.{KeyValue}
use compactor.Merge.Source.Arena.{arena_of}
use compactor.Merge.Streams.{all_entries}
use compactor.Compaction.Loop.{bytes_eq}
use compactor.Compaction.Readers.{live}
use compactor.Compaction.Readers.Newest.{newest}
use compactor.CompactFiles.{
  for_ingest_flag, list_flag, run_compact_files, listed_paths, split_lines, onto_line, trim_start,
  trim_end, is_space, remove_flag,
}
use compactor.CompactFiles.Pipeline.{IsFile, Input, run_compact_files-newest-live}
use compactor.Sst.Outcome.{done}
use compactor.Sst.Reader.{load_arena_source}
use compactor.Sst.RoundTrip.{reader_of}
use compactor.Examples.File.{sums, no_decompressors}
use compactor.Examples.Whole.{
  older, newer_one, sources, sources-IsSorted, sources-IsVersioned, sources-Covers,
}

-- White space, `\r` and an empty line of a list.
listed_paths_run :
    listed_paths (split_lines (as_bytes " a.sst\r\n\n\tb c.sst"))
    ≡ as_bytes "a.sst" ∷ as_bytes "b c.sst" ∷ []
unfolding listed_paths split_lines onto_line trim_start trim_end is_space
listed_paths_run = refl

remove_flag_run :
    (remove_flag (as_bytes "x" ∷ for_ingest_flag ∷ for_ingest_flag ∷ [])).1
    ≡ as_bytes "x" ∷ for_ingest_flag ∷ []
unfolding remove_flag bytes_eq
remove_flag_run = refl

abbrev two_files : Bytes → Option Bytes
two_files path =
    if bytes_eq path (as_bytes "a.sst")
    then build_sst sums default_options older
    else build_sst sums default_options newer_one

abbrev two_inputs : List Input
two_inputs = (as_bytes "a.sst", older) ∷ (as_bytes "b.sst", newer_one) ∷ []

two_files-IsFile :
    All
      (IsFile sums no_decompressors two_files default_options ((omega arith, omega arith), refl))
      two_inputs
unfolding bytes_eq
two_files-IsFile = (refl, (refl, tt))

abbrev arguments : List Bytes
arguments = as_bytes "compact_files" ∷ as_bytes "out.sst" ∷ as_bytes "a.sst" ∷ as_bytes "b.sst" ∷ []

no_flags : All (λ a. bytes_eq a for_ingest_flag ≡ false) arguments
unfolding bytes_eq
no_flags = (refl, (refl, (refl, (refl, tt))))

no_list : bytes_eq (as_bytes "a.sst") list_flag ≡ false
unfolding bytes_eq
no_list = refl

run_compact_files-newest-live_example :
    (file : Bytes) × (out : List KeyValue) × (run_compact_files sums no_decompressors two_files
        (λ path. none)
        arguments
      ≡ done (as_bytes "out.sst", file))
    × (load_arena_source sums no_decompressors (reader_of file) ≡ done (arena_of out))
    × (newest (b'a' ∷ []) 9 out ≡ live (newest (b'a' ∷ []) 9 (all_entries sources)))
run_compact_files-newest-live_example =
    run_compact_files-newest-live sums no_decompressors two_files default_options
      ((omega arith, omega arith), refl) (λ path. none) (as_bytes "compact_files")
      (as_bytes "out.sst") (as_bytes "a.sst") older ((as_bytes "b.sst", newer_one) ∷ []) (b'a' ∷ [])
      9 no_flags no_list two_files-IsFile sources-IsSorted (omega arith) sources-IsVersioned
      sources-Covers
