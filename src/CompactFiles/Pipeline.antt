-- ===== src/CompactFiles/Pipeline.antt =====
-- The tool from its input files to the file that it writes.
use compactor.Prelude.{
  ℕ, ◌^◌, ◌<◌, ◌≡◌, refl, ◌∙◌, false, Bytes, List, [], ◌∷◌, Option, some, map, All, arith,
}
use compactor.Format.Checksum.{Hashes}
use compactor.Format.SstBuilder.Build.{SstBuilderOptions, build_sst, entries_to_write}
use compactor.Format.SstBuilder.Written.{weight, weight-append}
use compactor.Format.Trailer.{Decompressors}
use compactor.Merge.Source.{KeyValue}
use compactor.Merge.Source.Arena.{arena_of}
use compactor.Merge.Streams.{all_entries}
use compactor.Compaction.Files.Outputs.{IsPlain, compact-newest-live}
use compactor.Compaction.Loop.{bytes_eq}
use compactor.Compaction.Readers.{Covers, live}
use compactor.Compaction.Readers.Newest.{newest}
use compactor.Compaction.Whole.Arenas.{IsSorted, arena_of-Compactable}
use compactor.Compaction.Whole.Readers.{IsVersioned}
use compactor.CompactFiles.{
  for_ingest_flag, list_flag, remove_flag, input_paths, tool_options, load_inputs, run_args,
  compact_to, run_compact_files,
}
use compactor.Sst.Loading.{load_arena_source-build_sst}
use compactor.Sst.Outcome.{done}
use compactor.Sst.Reader.{open_file, load_arena_source}
use compactor.Sst.RoundTrip.{reader_of}

-- Paths with the entries of the files there.
abbrev pub Input : Type 0
Input = Bytes × List KeyValue

abbrev pub path_of : Input → Bytes
path_of i = i.0

abbrev pub entries_of : Input → List KeyValue
entries_of i = i.1

-- No argument is the flag.
remove_flag-none :
    (args : List Bytes)
    → All (λ a. bytes_eq a for_ingest_flag ≡ false) args
    → remove_flag args ≡ (false, args)
unfolding remove_flag
remove_flag-none [] h = refl
remove_flag-none (arg ∷ args) (h, hs) = rw (h, remove_flag-none args hs) refl

input_paths-plain :
    (texts : Bytes → Option Bytes) (arg : Bytes) (args : List Bytes)
    → bytes_eq arg list_flag ≡ false
    → input_paths texts arg args ≡ done (arg ∷ args)
unfolding input_paths
input_paths-plain texts arg [] h = rw h refl
input_paths-plain texts arg (a ∷ args) h = rw h refl

module _ (hashes : Hashes) (d : Decompressors) (files : Bytes → Option Bytes)
    (opts : SstBuilderOptions) (plain : IsPlain opts) where
  abbrev pub IsFile : Input → Type 0
  IsFile i = files (path_of i) ≡ build_sst hashes opts (entries_of i)

  load_inputs-built :
      (inputs : List Input)
      → All IsFile inputs
      → weight (all_entries (map entries_of inputs)) < 2 ^ 31
      → load_inputs hashes d files (map path_of inputs)
        ≡ done (map arena_of (map entries_of inputs))
  unfolding load_inputs open_file entries_to_write
  load_inputs-built [] h light = refl
  load_inputs-built ((path, es) ∷ inputs) (h, hs) light =
      let heavy = weight-append es (all_entries (map entries_of inputs)) in
      let written : entries_to_write opts.external_sst_global_seqno es ≡ some es =
        rw plain.1 refl in
      let (file, built, loaded) =
        load_arena_source-build_sst hashes opts d es es plain.0 written (omega (arith, heavy)) in
      rw (load_inputs, h ∙ built, loaded, load_inputs-built inputs hs (omega (arith, heavy))) refl

  -- The tool, called without flags on a path for the output and one or more paths of files that
  -- `build_sst` made, under options by which it takes entries as they are, of entries sorted by
  -- internal key, each list less than 4 GiB and together lighter than 2 GiB (of an entry, twice the
  -- key, the value and 100 bytes), does not fail or panic. Where no two versions of the user key
  -- share a sequence number and the reader is at least as new as all of them, the entries that are
  -- loaded from the bytes it writes have for the reader the newest version in all the files, or none
  -- where that is a tombstone.
  pub run_compact_files-newest-live :
      (texts : Bytes → Option Bytes) (program output_path path : Bytes) (es : List KeyValue)
      (inputs : List Input) (u : Bytes) (r : ℕ)
      → All
          (λ a. bytes_eq a for_ingest_flag ≡ false)
          (program ∷ output_path ∷ map path_of ((path, es) ∷ inputs))
      → bytes_eq path list_flag ≡ false
      → All IsFile ((path, es) ∷ inputs)
      → All IsSorted (map entries_of ((path, es) ∷ inputs))
      → weight (all_entries (map entries_of ((path, es) ∷ inputs))) < 2 ^ 31
      → IsVersioned u (all_entries (map entries_of ((path, es) ∷ inputs)))
      → Covers u r (all_entries (map entries_of ((path, es) ∷ inputs)))
      → (file : Bytes) × (out : List KeyValue) × (run_compact_files hashes d files texts
            (program ∷ output_path ∷ map path_of ((path, es) ∷ inputs))
          ≡ done (output_path, file))
        × (load_arena_source hashes d (reader_of file) ≡ done (arena_of out))
        × (newest u r out ≡ live (newest u r (all_entries (map entries_of ((path, es) ∷ inputs)))))
  unfolding run_compact_files run_args compact_to
  run_compact_files-newest-live texts program output_path path es inputs u r flags no_list built
        sorted light versioned covers =
      let all = (path, es) ∷ inputs in
      let ess = map entries_of all in
      let (file, out, made, loaded, found) =
        compact-newest-live hashes d (tool_options false) ((omega arith, omega arith), refl)
          (map arena_of ess) ess (arena_of-Compactable ess sorted) light u r versioned covers in
      (
        file,
        out,
        rw
            (
              remove_flag-none (program ∷ output_path ∷ map path_of all) flags,
              input_paths-plain texts path (map path_of inputs) no_list,
              load_inputs-built all built light,
              compact_to,
              made,
            )
            refl,
        loaded,
        found,
      )
