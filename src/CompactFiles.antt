-- ===== src/CompactFiles.antt =====
-- crates/compactor/src/bin/compact_files.rs: the tool that compacts files into one. The files are a
-- parameter, by their paths, and so is what `read_to_string` reads; a string is its bytes, and white
-- space is that of ASCII. A message on stderr with the exit code 1 is `failed`; the last step is what
-- is handed to `fs::write`.
pub mod Pipeline
use compactor.Prelude.{
  ℕ, ◌==◌, ◌&&◌, ◌||◌, Bool, true, false, not, leb, Bytes, List, [], ◌∷◌, Option, none, some,
  length, if◌then◌else◌,
}
use compactor.Format.Checksum.{Hashes}
use compactor.Format.Error.{usage, missing_list, unreadable_list, cannot_open}
use compactor.Format.Properties.{as_bytes}
use compactor.Format.SstBuilder.Build.{default_options}
use compactor.Format.Trailer.{Decompressors}
use compactor.Merge.Source.{ArenaSource}
use compactor.Compaction.Files.{CompactionOptions, compact}
use compactor.Compaction.Loop.{bytes_eq}
use compactor.Sst.Outcome.{Outcome, done, failed, panicked, ◌>>=◌}
use compactor.Sst.Reader.{open_file, blocking_reader, load_arena_source}

abbrev pub for_ingest_flag : Bytes
for_ingest_flag = as_bytes "--for-ingest"

abbrev pub list_flag : Bytes
list_flag = as_bytes "--list"

-- The first flag is taken out of the arguments, where there is one.
unfoldable pub remove_flag : List Bytes → Bool × List Bytes
remove_flag [] = (false, [])
remove_flag (arg ∷ args) =
    let (found, rest) = remove_flag args in
    if bytes_eq arg for_ingest_flag then (true, args) else (found, arg ∷ rest)

unfoldable pub is_space : ℕ → Bool
is_space c = leb 9 c && leb c 13 || c == 32

-- A character in front of the first line.
unfoldable pub onto_line : ℕ → List Bytes → List Bytes
onto_line c [] = (c ∷ []) ∷ []
onto_line c (line ∷ lines) = (c ∷ line) ∷ lines

-- `lines()`, with the last line where it is empty, and `\r` left to `trim`.
unfoldable pub split_lines : Bytes → List Bytes
split_lines [] = [] ∷ []
split_lines (c ∷ text) =
    let lines = split_lines text in if c == 10 then [] ∷ lines else onto_line c lines

unfoldable pub trim_start : Bytes → Bytes
trim_start [] = []
trim_start (c ∷ s) = let rest = trim_start s in if is_space c then rest else c ∷ s

unfoldable pub trim_end : Bytes → Bytes
trim_end [] = []
trim_end (c ∷ s) = let rest = trim_end s in if is_space c && length rest == 0 then [] else c ∷ rest

-- The lines, trimmed, without the empty ones.
unfoldable pub listed_paths : List Bytes → List Bytes
listed_paths [] = []
listed_paths (line ∷ lines) =
    let path = trim_end (trim_start line) in
    let paths = listed_paths lines in if not (length path == 0) then path ∷ paths else paths

-- `args[2]` and what follows it.
unfoldable pub input_paths : (Bytes → Option Bytes) → Bytes → List Bytes → Outcome (List Bytes)
input_paths texts arg [] = if bytes_eq arg list_flag then failed missing_list else done (arg ∷ [])
input_paths texts arg (list_path ∷ args) =
    if bytes_eq arg list_flag
    then elim (texts list_path) [
      | none ↦ failed unreadable_list
      | some text ↦ done (listed_paths (split_lines text))
    ]
    else done (arg ∷ list_path ∷ args)

abbrev pub tool_options : Bool → CompactionOptions
tool_options for_ingest = record {
  sst_builder = record default_options {
    base_context_checksum = 0x4242_4242;
    external_sst_global_seqno = if for_ingest then some 0 else none;
  };
}

module _ (hashes : Hashes) (d : Decompressors) (files : Bytes → Option Bytes) where
  unfoldable pub load_inputs : List Bytes → Outcome (List ArenaSource)
  load_inputs [] = done []
  load_inputs (path ∷ paths) =
      let rest = load_inputs paths in
      elim (open_file files path) [
        | none ↦ failed cannot_open
        | some reader ↦ (do
          source ← load_arena_source hashes d (blocking_reader reader)
          sources ← rest
          done (source ∷ sources))
      ]

  -- The path of the output and its bytes.
  unfoldable pub compact_to : Bool → Bytes → List ArenaSource → Outcome (Bytes × Bytes)
  compact_to for_ingest output_path sources =
      elim (compact hashes sources (tool_options for_ingest)) [
        | none ↦ panicked
        | some output_bytes ↦ done (output_path, output_bytes)
      ]

  unfoldable pub run_args : (Bytes → Option Bytes) → Bool → List Bytes → Outcome (Bytes × Bytes)
  run_args texts for_ingest (program ∷ output_path ∷ arg ∷ args) = do
    paths ← input_paths texts arg args
    sources ← load_inputs paths
    compact_to for_ingest output_path sources
  run_args texts for_ingest _ = failed usage

  unfoldable pub run_compact_files : (Bytes → Option Bytes) → List Bytes → Outcome (Bytes × Bytes)
  run_compact_files texts args =
      let (for_ingest, rest) = remove_flag args in run_args texts for_ingest rest
