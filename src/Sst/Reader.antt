-- ===== src/Sst/Reader.antt =====
-- crates/compactor/src/io/mod.rs and sst/mod.rs, and `load_arena_source` of compaction/mod.rs. A
-- `usize` has 64 bits, and its sums wrap around. The reads of the standard library are modelled on
-- the bytes of the file; an `io::Error` is `read_failed`, and memory is not exhausted.
use compactor.Prelude.{
  ℕ, ◌+◌, ◌-◌, ◌^◌, Bytes, List, [], ◌∷◌, ◌++◌, Option, none, some, length, drop, ltb, leb, slice,
  ◌==◌, ◌&&◌, if◌then◌else◌,
}
use compactor.Prelude.Bits.{u64}
use compactor.Format.Error
use compactor.Format.Error.{
  Result, ok, ok_or, file_too_short, read_failed, block_out_of_bounds, missing_index_handle,
}
use compactor.Format.Block.{ParsedBlock, parse_block, for_each_entry}
use compactor.Format.Checksum.{BlockHandle, Hashes}
use compactor.Format.Footer.{Footer, decode_footer}
use compactor.Format.IndexBlock.{for_each_index_entry}
use compactor.Format.Metaindex.{find_meta_handle}
use compactor.Format.Properties.{index_block_name}
use compactor.Format.Trailer.{Decompressors, block_read_len, decode_block_contents}
use compactor.Merge.Source.{ArenaSource, new_builder, push, build}
use compactor.Sst.Outcome.{Outcome, done, failed, panicked, from_result, ◌>>=◌}

-- The trait.
pub record FileReader : Type 0 where
  pub read_at : ℕ → ℕ → Outcome Bytes
  pub file_size : ℕ

pub record BlockingFileReader : Type 0 where
  pub file : Bytes
  pub file_size : ℕ

-- `open`; a path leads to the bytes of a file, or to none.
unfoldable pub open_file : (Bytes → Option Bytes) → Bytes → Option BlockingFileReader
open_file files path = elim (files path) [
  | none ↦ none
  | some file ↦ some (record { file = file; file_size = length file })
]

-- `read_exact_at`: an error where the file ends before, but an empty buffer is never short. A
-- vector of 2 ^ 63 bytes or more panics.
unfoldable pub read_at_blocking : BlockingFileReader → ℕ → ℕ → Outcome Bytes
read_at_blocking r offset len =
    if leb (2 ^ 63) len
    then panicked
    else if len == 0
    then done []
    else elim (slice r.file offset len) [ none ↦ failed read_failed | some buf ↦ done buf ]

abbrev pub blocking_reader : BlockingFileReader → FileReader
blocking_reader r = record { read_at = read_at_blocking r; file_size = r.file_size }

abbrev pub footer_tail_len : ℕ
footer_tail_len = 53

-- The footer's handle of the index, or the one of the metaindex.
unfoldable pub index_handle_of : Footer → ParsedBlock → Result BlockHandle
index_handle_of ft metaindex = elim ft.index_handle [
  | some h ↦ ok h
  | none ↦
      Error.◌>>=◌ (find_meta_handle metaindex index_block_name)
        (λ found. ok_or found missing_index_handle)
]

-- The closure that pushes the handles.
abbrev pub push_handle : List BlockHandle → Bytes → BlockHandle → List BlockHandle
push_handle handles key handle = handles ++ handle ∷ []

unfoldable pub data_handles : ParsedBlock → Result (List BlockHandle)
data_handles index =
    let (handles, ended) = for_each_index_entry push_handle index [] in
    Error.◌>>=◌ ended (λ _. ok handles)

module _ (read : BlockHandle → Outcome Bytes) where
  unfoldable pub read_block : BlockHandle → Outcome ParsedBlock
  read_block handle = do raw ← read handle; from_result (parse_block raw)

  -- The metaindex and the index.
  unfoldable pub read_index : Footer → Outcome (ParsedBlock × ParsedBlock)
  read_index ft = do
    metaindex ← read_block ft.metaindex_handle
    index_handle ← from_result (index_handle_of ft metaindex)
    index ← read_block index_handle
    done (metaindex, index)

  -- The loop over the data blocks, and what the callback has made of the entries.
  unfoldable pub visit_blocks :
      {S : Type 0} → (S → Bytes → Bytes → S) → List BlockHandle → S → S × Outcome (Unit {0})
  visit_blocks f [] s = (s, done tt)
  visit_blocks f (handle ∷ handles) s = elim (read_block handle) [
    | failed e ↦ (s, failed e)
    | panicked ↦ (s, panicked)
    | done parsed ↦
        let (s', ended) = for_each_entry f parsed s in
        elim ended [ Error.err e ↦ (s', failed e) | ok _ ↦ visit_blocks f handles s' ]
  ]

pub record SstReader : Type 0 where
  pub reader : FileReader
  pub footer : Footer
  pub metaindex : ParsedBlock
  pub index : ParsedBlock

module _ (hashes : Hashes) (d : Decompressors) where
  -- A buffer of the wrong length is an error of the trailer. Where the sum of size and trailer has
  -- wrapped around, a buffer of that length has no room for `[..raw_len]`, which panics.
  unfoldable pub decode_contents : Footer → BlockHandle → Bytes → Outcome Bytes
  decode_contents ft handle raw_with_trailer =
      let n = length raw_with_trailer in
      if (n == u64 (block_read_len handle)) && ltb n handle.size
      then panicked
      else from_result (
          decode_block_contents hashes ft.checksum_type ft.base_context_checksum d handle
            raw_with_trailer)

  unfoldable pub decode_block_in_memory : Bytes → Footer → BlockHandle → Outcome Bytes
  decode_block_in_memory file_bytes ft handle =
      let start = handle.offset in
      let end_ = u64 (start + u64 (block_read_len handle)) in
      if leb start end_
      then elim (slice file_bytes start (end_ - start)) [
        | none ↦ failed block_out_of_bounds
        | some raw_with_trailer ↦ decode_contents ft handle raw_with_trailer
      ]
      else failed block_out_of_bounds

  -- A file that is shorter than the footer makes the slice of its tail panic.
  unfoldable pub load_arena_source : FileReader → Outcome ArenaSource
  load_arena_source reader = do
    file_bytes ← reader.read_at 0 reader.file_size
    if ltb (length file_bytes) footer_tail_len then panicked else (do
      let tail = drop (length file_bytes - footer_tail_len) file_bytes
      ft ← from_result (decode_footer hashes tail reader.file_size)
      let read = decode_block_in_memory file_bytes ft
      (_, index) ← read_index read ft
      handles ← from_result (data_handles index)
      let (builder, ended) = visit_blocks read push handles new_builder
      _ ← ended
      done (build builder))

  unfoldable pub read_footer : FileReader → Outcome Footer
  read_footer reader = if ltb reader.file_size footer_tail_len then failed file_too_short else (do
    tail ← reader.read_at (reader.file_size - footer_tail_len) footer_tail_len
    from_result (decode_footer hashes tail reader.file_size))

  unfoldable pub read_block_contents : FileReader → Footer → BlockHandle → Outcome Bytes
  read_block_contents reader ft handle = do
    raw_with_trailer ← reader.read_at handle.offset (u64 (block_read_len handle))
    decode_contents ft handle raw_with_trailer

  unfoldable pub open_sst : FileReader → Outcome SstReader
  open_sst reader = do
    ft ← read_footer reader
    (metaindex, index) ← read_index (read_block_contents reader ft) ft
    done (record { reader = reader; footer = ft; metaindex = metaindex; index = index })

  unfoldable pub find_meta_block_handle : SstReader → Bytes → Result (Option BlockHandle)
  find_meta_block_handle r name = find_meta_handle r.metaindex name

  -- `SstReader::for_each_entry`.
  unfoldable pub for_each_sst_entry :
      {S : Type 0} → SstReader → (S → Bytes → Bytes → S) → S → S × Outcome (Unit {0})
  for_each_sst_entry r f s = elim (data_handles r.index) [
    | Error.err e ↦ (s, failed e)
    | ok handles ↦ visit_blocks (read_block_contents r.reader r.footer) f handles s
  ]
