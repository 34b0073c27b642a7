-- ===== src/Sst/Agreement.antt =====
-- The two readers of a file against each other: `load_arena_source`, which reads it as a whole, and
-- `SstReader`, which reads its blocks one by one.
use compactor.Prelude.{
  ℕ, ◌+◌, ◌-◌, ◌^◌, ◌≤◌, ◌<◌, ◌≡◌, refl, sym, ◌∙◌, true, false, Bytes, List, [], ◌∷◌, some, none,
  length, arith, slice, drop, take, leb→le, ltb, leb, le→ltb, ◌==◌, le→leb, Bool-cases, inl, inr,
}
use compactor.Prelude.Bits.{u64}
use compactor.Format.Error.{Result-cases}
use compactor.Format.Block.{for_each_entry}
use compactor.Format.Checksum.{BlockHandle, Hashes}
use compactor.Format.Footer.{Footer, decode_footer}
use compactor.Format.Trailer.{Decompressors, block_read_len}
use compactor.Merge.Source.{ArenaSource, new_builder, push, build}
use compactor.Sst.Loading.{read-whole, read-tail}
use compactor.Sst.RoundTrip.{reader_of, read_at_blocking_lem}
use compactor.Sst.Outcome.{
  Outcome, done, panicked, ◌>>=◌, from_result, result_of, same_result, result_of-bind,
}
use compactor.Sst.Reader.{
  FileReader, decode_contents, decode_block_in_memory, read_block_contents, index_handle_of,
  read_block, read_index, data_handles, visit_blocks, load_arena_source, read_footer, open_sst,
  for_each_sst_entry, read_at_blocking,
}

slice-within :
    (file : Bytes) (offset len : ℕ)
    → leb (offset + len) (length file) ≡ true
    → slice file offset len ≡ some (take len (drop offset file))
unfolding slice
slice-within file offset len h = rw h refl

slice-beyond :
    (file : Bytes) (offset len : ℕ)
    → leb (offset + len) (length file) ≡ false
    → slice file offset len ≡ none
unfolding slice
slice-beyond file offset len h = rw h refl

module _ (hashes : Hashes) (d : Decompressors) where
  module _ (file : Bytes) (ft : Footer) (h : BlockHandle) (small : length file < 2 ^ 63) where
    len : ℕ
    len = u64 (block_read_len h)

    decode_block_in_memory-beyond :
        leb (h.offset + len) (length file) ≡ false
        → result_of (decode_block_in_memory hashes d file ft h) ≡ none
    unfolding decode_block_in_memory len
    decode_block_in_memory-beyond out = elim (Bool-cases (leb h.offset (u64 (h.offset + len)))) [
      | inl t ↦
          let ordered = leb→le _ _ t in
          let end_ : u64 (h.offset + len) ≡ h.offset + len = omega arith in
          let same : h.offset + len - h.offset ≡ len = omega arith in
          rw (t, end_, same, slice-beyond file h.offset len out) refl
      | inr t ↦ rw (t, decode_block_in_memory) refl
    ]

    -- The sum of size and trailer has wrapped around to 0.
    decode_contents-wrapped : len ≡ 0 → decode_contents hashes d ft h [] ≡ panicked
    unfolding decode_contents len block_read_len
    decode_contents-wrapped e = ground (arith, e)

    read_block_contents-beyond :
        leb (h.offset + len) (length file) ≡ false
        → result_of (read_block_contents hashes d (reader_of file) ft h) ≡ none
    unfolding read_block_contents read_at_blocking len
    read_block_contents-beyond out = elim (Bool-cases (leb (2 ^ 63) len)) [
      | inl t ↦ rw (t, read_block_contents) refl
      | inr t ↦ elim (Bool-cases (len == 0)) [
        | inl z ↦ rw (t, z, read_block_contents, decode_contents-wrapped (ground (arith, z))) refl
        | inr z ↦ rw (t, z, read_block_contents, slice-beyond file h.offset len out) refl
      ]
    ]

    reads_alike :
        result_of (decode_block_in_memory hashes d file ft h)
        ≡ result_of (read_block_contents hashes d (reader_of file) ft h)
    unfolding decode_block_in_memory read_block_contents len
    reads_alike = elim (Bool-cases (leb (h.offset + len) (length file))) [
      | inl t ↦
          let within = leb→le _ _ t in
          let end_ : u64 (h.offset + len) ≡ h.offset + len = omega arith in
          let ordered : h.offset ≤ h.offset + len = omega arith in
          let same : h.offset + len - h.offset ≡ len = omega arith in
          let got : slice file h.offset len ≡ some (take len (drop h.offset file)) =
            slice-within file h.offset len t in
          rw
            (
              end_,
              le→leb _ _ ordered,
              same,
              got,
              read_at_blocking_lem file h.offset len (omega arith) got,
            )
            refl
      | inr out ↦ decode_block_in_memory-beyond out ∙ sym (read_block_contents-beyond out)
    ]

module _ (read read' : BlockHandle → Outcome Bytes)
    (alike : (h : BlockHandle) → result_of (read h) ≡ result_of (read' h)) where
  read_block-alike :
      (h : BlockHandle) → result_of (read_block read h) ≡ result_of (read_block read' h)
  unfolding read_block
  read_block-alike h = result_of-bind (read h) (read' h) _ _ (alike h) (λ raw. refl)

  read_index-alike :
      (ft : Footer) → result_of (read_index read ft) ≡ result_of (read_index read' ft)
  unfolding read_index
  read_index-alike ft =
      result_of-bind (read_block read ft.metaindex_handle) (read_block read' ft.metaindex_handle) _
        _ (read_block-alike ft.metaindex_handle)
        (λ metaindex.
          result_of-bind (from_result (index_handle_of ft metaindex))
            (from_result (index_handle_of ft metaindex)) _ _ refl
            (λ h.
              result_of-bind (read_block read h) (read_block read' h) _ _ (read_block-alike h)
                (λ index. refl)))

  module _ {S : Type 0} (f : S → Bytes → Bytes → S) where
    visit_blocks-alike :
        (hs : List BlockHandle) (s : S)
        → ((visit_blocks read f hs s).0 ≡ (visit_blocks read' f hs s).0)
          × (result_of (visit_blocks read f hs s).1 ≡ result_of (visit_blocks read' f hs s).1)
    unfolding visit_blocks
    visit_blocks-alike [] s = (refl, refl)
    visit_blocks-alike (h ∷ hs) s =
        elim (same_result (read_block read h) (read_block read' h) (read_block-alike h)) [
          | inl (block, p, q) ↦ elim (Result-cases (for_each_entry f block s).1) [
            | inl (_, e) ↦
                rw (visit_blocks, p, q, e) (visit_blocks-alike hs (for_each_entry f block s).0)
            | inr (x, e) ↦ rw (visit_blocks, p, q, e) (refl, refl)
          ]
          | inr (inl (_, p), inl (_, q)) ↦ rw (visit_blocks, p, q) (refl, refl)
          | inr (inl (_, p), inr q) ↦ rw (visit_blocks, p, q) (refl, refl)
          | inr (inr p, inl (_, q)) ↦ rw (visit_blocks, p, q) (refl, refl)
          | inr (inr p, inr q) ↦ rw (visit_blocks, p, q) (refl, refl)
        ]

-- `SstReader::open`, and a push for each of its entries.
unfoldable pub load_with_reader : Hashes → Decompressors → FileReader → Outcome ArenaSource
load_with_reader hashes d reader = do
  r ← open_sst hashes d reader
  let (builder, ended) = for_each_sst_entry hashes d r push new_builder
  _ ← ended
  done (build builder)

-- On every file that has room for a footer and fewer than 2 ^ 63 bytes, whatever they are,
-- `load_arena_source` returns a source just where the entries that an `SstReader` of the file visits
-- can all be pushed, and it is the source that these pushes build.
pub load_arena_source-agrees :
    (hashes : Hashes) (d : Decompressors) (file : Bytes)
    → 53 ≤ length file
    → length file < 2 ^ 63
    → result_of (load_arena_source hashes d (reader_of file))
      ≡ result_of (load_with_reader hashes d (reader_of file))
unfolding load_arena_source load_with_reader open_sst read_footer for_each_sst_entry
load_arena_source-agrees hashes d file h small =
    let long : ltb (length file) 53 ≡ false = le→ltb _ _ h in
    let last = read-tail file h in
    let tail = drop (length file - 53) file in
    elim (Result-cases (decode_footer hashes tail (length file))) [
      | inr (x, e) ↦ rw (load_arena_source, read_footer, read-whole file small, long, last, e) refl
      | inl (ft, e) ↦
          let read = decode_block_in_memory hashes d file ft in
          let read' = read_block_contents hashes d (reader_of file) ft in
          let alike = λ (b : BlockHandle). reads_alike hashes d file ft b small in
          rw (load_arena_source, read_footer, read-whole file small, long, last, e)
            elim (same_result (read_index read ft) (read_index read' ft)
              (read_index-alike read read' alike ft)) [
                | inl ((_, index), p, q) ↦ elim (Result-cases (data_handles index)) [
                  | inr (x, e') ↦ rw (p, q, for_each_sst_entry, e') refl
                  | inl (handles, e') ↦
                      let (s, k) = visit_blocks-alike read read' alike push handles new_builder in
                      rw (p, q, for_each_sst_entry, e', s)
                        (result_of-bind (visit_blocks read push handles new_builder).1
                          (visit_blocks read' push handles new_builder).1 _ _ k (λ _. refl))
                ]
                | inr (inl (_, p), inl (_, q)) ↦ rw (p, q) refl
                | inr (inl (_, p), inr q) ↦ rw (p, q) refl
                | inr (inr p, inl (_, q)) ↦ rw (p, q) refl
                | inr (inr p, inr q) ↦ rw (p, q) refl
              ]
    ]
