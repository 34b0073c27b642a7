-- ===== src/Fuzzer.antt =====
-- crates/fuzzer/src/lib.rs: `run_compactor` and `decode_sst_entries`, which the fuzzer compares with
-- the naive compaction. `none` is a panic: of a slice, an `expect` or an `unwrap`.
pub mod Sorting
pub mod Decoding
pub mod Differential
use compactor.Prelude.{
  ℕ, ◌+◌, ◌-◌, ◌*◌, ◌^◌, bit_or, Bytes, List, [], ◌∷◌, ◌++◌, Option, none, some, ◌>>=◌, length,
  drop, ltb, Ordering, map, if◌then◌else◌,
}
use compactor.Prelude.Bits.{u64}
use compactor.Format.Error.{Result, ok, err}
use compactor.Format.Block.{for_each_entry}
use compactor.Format.Checksum.{BlockHandle, Hashes}
use compactor.Format.Fixed.{to_le_bytes64}
use compactor.Format.Footer.{decode_block_handle, decode_footer}
use compactor.Format.InternalKey.{split}
use compactor.Format.Properties.{index_block_name}
use compactor.Format.SstBuilder.Build.{default_options}
use compactor.Format.Trailer.{Decompressors}
use compactor.Merge.Cmp.{compare_bytes}
use compactor.Merge.Source.{KeyValue}
use compactor.Merge.Source.Arena.{arena_of}
use compactor.Compaction.Files.{CompactionOptions, compact}
use compactor.Compaction.Loop.{bytes_eq}
use compactor.Sst.Outcome.{Outcome, done, failed, panicked}
use compactor.Sst.Reader.{
  decode_block_in_memory, read_block, data_handles, visit_blocks, footer_tail_len,
}

abbrev pub type_value : ℕ
type_value = 1

abbrev pub type_deletion : ℕ
type_deletion = 0

-- `seq << 8` loses its upper bits.
unfoldable pub make_internal_key : Bytes → ℕ → ℕ → Bytes
make_internal_key user_key seq ty = user_key ++ to_le_bytes64 (bit_or (u64 (seq * 2 ^ 8)) ty)

abbrev pub expect {ℓ} : {A : Type ℓ} → Outcome A → Option A
expect (done a) = some a
expect (failed e) = none
expect panicked = none

abbrev pub expect_ok {ℓ} : {A : Type ℓ} → Result A → Option A
expect_ok (ok a) = some a
expect_ok (err e) = none

-- The closure that looks for the index, and takes the last handle of that name.
unfoldable pub on_meta_entry :
    Option (Option BlockHandle) → Bytes → Bytes → Option (Option BlockHandle)
on_meta_entry none k v = none
on_meta_entry (some index_handle) k v =
    if bytes_eq k index_block_name
    then (do (handle, _) ← decode_block_handle v 0; some (some handle))
    else some index_handle

-- The closure that pushes the pairs.
unfoldable pub push_pair : Option (List KeyValue) → Bytes → Bytes → Option (List KeyValue)
push_pair none k v = none
push_pair (some out) k v = do ik ← expect_ok (split k); some (out ++ (ik.user_key, v) ∷ [])

-- The order of pairs of vectors.
unfoldable pub compare_pairs : KeyValue → KeyValue → Ordering
compare_pairs a b = elim (compare_bytes a.0 b.0) [ Ordering.eq ↦ compare_bytes a.1 b.1 | o ↦ o ]

unfoldable pub insert_pair : KeyValue → List KeyValue → List KeyValue
insert_pair e [] = e ∷ []
insert_pair e (x ∷ out) =
    let rest = insert_pair e out in
    elim (compare_pairs x e) [ Ordering.lt ↦ x ∷ rest | _ ↦ e ∷ x ∷ out ]

-- `out.sort()`
unfoldable pub sort_pairs : List KeyValue → List KeyValue
sort_pairs [] = []
sort_pairs (e ∷ out) = insert_pair e (sort_pairs out)

abbrev pub fuzz_options : CompactionOptions
fuzz_options = record {
  sst_builder = record default_options { base_context_checksum = 0x1357_9bdf };
}

module _ (hashes : Hashes) (d : Decompressors) where
  unfoldable pub decode_sst_entries : Bytes → Option (List KeyValue)
  decode_sst_entries bytes = if ltb (length bytes) footer_tail_len then none else (do
    footer ←
        expect_ok
          (decode_footer hashes (drop (length bytes - footer_tail_len) bytes) (u64 (length bytes)))
    let read = decode_block_in_memory hashes d bytes footer
    metaindex ← expect (read_block read footer.metaindex_handle)
    let (found, meta_ended) = for_each_entry on_meta_entry metaindex (some none)
    handle ← found
    _ ← expect_ok meta_ended
    index_handle ← handle
    index ← expect (read_block read index_handle)
    handles ← expect_ok (data_handles index)
    let (pairs, ended) = visit_blocks read push_pair handles (some [])
    _ ← expect ended
    out ← pairs
    some (sort_pairs out))

  unfoldable pub run_compactor : List (List KeyValue) → Option (List KeyValue)
  run_compactor per_source = do
    sst_bytes ← compact hashes (map arena_of per_source) fuzz_options
    decode_sst_entries sst_bytes
