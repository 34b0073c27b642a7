-- ===== src/Sst/RoundTrip.antt =====
-- What the readers get of a file that `build_sst` made.
use compactor.Prelude.{
  ℕ, zero, suc, ◌+◌, ◌-◌, ◌^◌, ◌≤◌, ◌<◌, ◌≡◌, refl, sym, ap, ◌∙◌, Bytes, List, [], ◌∷◌, ◌++◌, some,
  length, length-append, append_assoc, append-nil, arith, slice, ltb, false, ◌==◌, ◌&&◌, le→leb,
  le→ltb,
}
use compactor.Prelude.Bits.{u64}
use compactor.Format.Error.{ok}
use compactor.Format.Block.{ParsedBlock, parse_block}
use compactor.Format.Block.Entries.{fold_entries}
use compactor.Format.Checksum.{BlockHandle, Hashes}
use compactor.Format.IndexBlock.Encoding.{IndexEntry}
use compactor.Format.IndexBlock.Holds.{IndexHolds}
use compactor.Format.IndexBlock.Walk.{fold_index}
use compactor.Format.SstBuilder.Build.{SstBuilderOptions}
use compactor.Format.SstBuilder.Stored.{
  AllStored, IsStored, with_trailer, length-with_trailer, slice-IsStored,
}
use compactor.Format.SstBuilder.Whole.{IsSst, footer_of}
use compactor.Format.Trailer.{Decompressors, block_read_len, decode_block_contents}
use compactor.Format.Trailer.RoundTrip.{decode_block_contents-encode_block_with_trailer}
use compactor.Merge.Source.{KeyValue}
use compactor.Merge.Streams.{all_entries}
use compactor.Sst.Outcome.{Outcome, done, from_result}
use compactor.Sst.Reader.{
  FileReader, blocking_reader, read_at_blocking, index_handle_of, push_handle, data_handles,
  read_block, read_index, visit_blocks, decode_contents, decode_block_in_memory,
  read_block_contents,
}

-- The file that stands under a path, opened.
abbrev pub reader_of : Bytes → FileReader
reader_of file = blocking_reader (record { file = file; file_size = length file })

pub read_at_blocking_lem :
    (file : Bytes) (offset len : ℕ) {buf : Bytes}
    → len < 2 ^ 63
    → slice file offset len ≡ some buf
    → read_at_blocking (record { file = file; file_size = length file }) offset len ≡ done buf
unfolding read_at_blocking slice
read_at_blocking_lem file offset zero h e = ground (arith, e)
read_at_blocking_lem file offset (suc len) h e = ground (arith, e)

abbrev pub handles_of : List IndexEntry → List BlockHandle
handles_of [] = []
handles_of ((key, h) ∷ hs) = h ∷ handles_of hs

fold_index-push_handle :
    (acc : List BlockHandle) (hs : List IndexEntry)
    → fold_index push_handle acc hs ≡ acc ++ handles_of hs
fold_index-push_handle acc [] = sym (append-nil acc)
fold_index-push_handle acc ((key, h) ∷ hs) =
    fold_index-push_handle (acc ++ h ∷ []) hs ∙ append_assoc acc (h ∷ []) (handles_of hs)

pub data_handles-IndexHolds :
    (raw : Bytes) (hs : List IndexEntry) (t : IndexHolds raw hs)
    → data_handles t.block ≡ ok (handles_of hs)
unfolding data_handles
data_handles-IndexHolds raw hs t =
    rw (t.walks (List BlockHandle) push_handle []) (ap ok (fold_index-push_handle [] hs))

fold_entries-append :
    {S : Type 0} (f : S → Bytes → Bytes → S) (s : S) (xs ys : List KeyValue)
    → fold_entries f s (xs ++ ys) ≡ fold_entries f (fold_entries f s xs) ys
fold_entries-append f s [] ys = refl
fold_entries-append f s ((k, v) ∷ xs) ys = fold_entries-append f (f s k v) xs ys

module _ (hashes : Hashes) (opts : SstBuilderOptions) (file : Bytes)
    (read : BlockHandle → Outcome Bytes)
    (reads : (h : BlockHandle) (raw : Bytes)
      → IsStored hashes opts file h raw
      → read h ≡ done raw) where
  pub read_block-IsStored :
      (h : BlockHandle) (raw : Bytes) (block : ParsedBlock)
      → IsStored hashes opts file h raw
      → parse_block raw ≡ ok block
      → read_block read h ≡ done block
  unfolding read_block
  read_block-IsStored h raw block s parses = rw (reads h raw s, parses) refl

  pub read_index-IsSst :
      (es : List KeyValue) (t : IsSst hashes opts file es)
      → read_index read (footer_of opts t.meta_handle)
        ≡ done (t.meta_held.block, t.index_held.block)
  unfolding read_index index_handle_of
  read_index-IsSst es t =
      rw
        (
          read_block-IsStored t.meta_handle t.meta_raw t.meta_held.block t.meta t.meta_held.parses,
          t.finds,
          read_block-IsStored t.index_handle t.index_raw t.index_held.block t.index
              t.index_held.parses,
        )
        refl

  pub visit_blocks-AllStored :
      {S : Type 0} (f : S → Bytes → Bytes → S) (hs : List IndexEntry) (ess : List (List KeyValue))
      (s : S)
      → AllStored hashes opts file hs ess
      → visit_blocks read f (handles_of hs) s ≡ (fold_entries f s (all_entries ess), done tt)
  unfolding visit_blocks
  visit_blocks-AllStored f [] [] s t = refl
  visit_blocks-AllStored f [] (es ∷ ess) s t = absurd t.never
  visit_blocks-AllStored f ((k, h) ∷ hs) [] s t = absurd t.never
  visit_blocks-AllStored {S} f ((k, h) ∷ hs) (es ∷ ess) s ((raw, stored, held), t) =
      rw
        (
          visit_blocks,
          read_block-IsStored h raw held.block stored held.parses,
          held.walks S f s,
          held.walks S f s,
          visit_blocks-AllStored f hs ess (fold_entries f s es) t,
          fold_entries-append f s es (all_entries ess),
        )
        refl

module _ (hashes : Hashes) (opts : SstBuilderOptions) (d : Decompressors) (file : Bytes)
    (meta : BlockHandle) where
  pub stored_within :
      (h : BlockHandle) (raw : Bytes)
      → IsStored hashes opts file h raw
      → h.offset + h.size + 5 ≤ length file
  stored_within h raw s =
      let whole = with_trailer hashes opts raw h.offset in
      omega (
        arith,
        ap length s.split_up,
        length-append s.front (whole ++ s.rest),
        length-append whole s.rest,
        length-with_trailer hashes opts raw h.offset,
        s.placed,
        s.sized,
      )

  decode_contents-IsStored :
      (h : BlockHandle) (raw : Bytes)
      → IsStored hashes opts file h raw
      → decode_contents hashes d (footer_of opts meta) h (with_trailer hashes opts raw h.offset)
        ≡ done raw
  unfolding decode_contents
  decode_contents-IsStored h raw s =
      let n = length-with_trailer hashes opts raw h.offset in
      let long : ltb (length (with_trailer hashes opts raw h.offset)) h.size ≡ false =
        le→ltb _ _ (omega (arith, n, s.sized)) in
      let room : ((length (with_trailer hashes opts raw h.offset) == u64 (block_read_len h))
            && ltb (length (with_trailer hashes opts raw h.offset)) h.size)
          ≡ false =
        ground (arith, long) in
      let same : h ≡ record { offset = h.offset; size = length raw } =
        ap (λ (x : ℕ). record { offset = h.offset; size = x }) (sym s.sized) in
      rw room (
        ap from_result (
          ap
            (λ (x : BlockHandle).
              decode_block_contents hashes opts.checksum_type opts.base_context_checksum d x
                (with_trailer hashes opts raw h.offset))
            same
          ∙ decode_block_contents-encode_block_with_trailer hashes opts.checksum_type
              opts.base_context_checksum d raw h.offset))

  pub decode_block_in_memory-IsStored :
      (h : BlockHandle) (raw : Bytes)
      → length file < 2 ^ 63
      → IsStored hashes opts file h raw
      → decode_block_in_memory hashes d file (footer_of opts meta) h ≡ done raw
  unfolding decode_block_in_memory block_read_len
  decode_block_in_memory-IsStored h raw small s =
      let within = stored_within h raw s in
      let end_ : u64 (h.offset + u64 (h.size + 5)) ≡ h.offset + (h.size + 5) = omega arith in
      let fits : h.offset ≤ h.offset + (h.size + 5) = omega arith in
      let len : h.offset + (h.size + 5) - h.offset ≡ h.size + 5 = omega arith in
      rw (end_, le→leb _ _ fits, len, slice-IsStored hashes opts file h raw s)
        (decode_contents-IsStored h raw s)

  pub read_block_contents-IsStored :
      (h : BlockHandle) (raw : Bytes)
      → length file < 2 ^ 63
      → IsStored hashes opts file h raw
      → read_block_contents hashes d (reader_of file) (footer_of opts meta) h ≡ done raw
  unfolding read_block_contents block_read_len
  read_block_contents-IsStored h raw small s =
      let within = stored_within h raw s in
      let len : u64 (h.size + 5) ≡ h.size + 5 = omega arith in
      let got =
        read_at_blocking_lem file h.offset (h.size + 5) (omega arith)
          (slice-IsStored hashes opts file h raw s) in
      rw (len, got) (decode_contents-IsStored h raw s)
