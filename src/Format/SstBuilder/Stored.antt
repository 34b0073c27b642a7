-- ===== src/Format/SstBuilder/Stored.antt =====
-- Blocks in a file, and what a reader with the right options gets of them.
use compactor.Prelude.{
  ℕ, ◌+◌, ◌^◌, ◌<◌, ◌≡◌, sym, ap, ◌∙◌, Bytes, List, [], ◌∷◌, ◌++◌, some, length, length-append,
  append_assoc, append-nil, arith, slice, slice-drop, drop-append_length,
}
use compactor.Prelude.Bits.{u64}
use compactor.Format.Fixed.{length-le_bytes}
use compactor.Format.Block.Holds.{Holds}
use compactor.Format.Checksum.{BlockHandle, Hashes}
use compactor.Format.IndexBlock.Encoding.{IndexEntry}
use compactor.Format.SstBuilder.Build.{SstBuilderOptions, append_block}
use compactor.Format.Trailer.{encode_block_with_trailer}
use compactor.Merge.Source.{KeyValue}

module _ (hashes : Hashes) (opts : SstBuilderOptions) where
  abbrev pub with_trailer : Bytes → ℕ → Bytes
  with_trailer raw offset =
      encode_block_with_trailer hashes opts.checksum_type opts.base_context_checksum raw offset

  -- The block stands in the file, with its trailer, where the handle says.
  pub record IsStored (file : Bytes) (h : BlockHandle) (raw : Bytes) : Type 0 where
    pub front : Bytes
    pub rest : Bytes
    pub split_up : file ≡ front ++ (with_trailer raw h.offset ++ rest)
    pub placed : length front ≡ h.offset
    pub sized : length raw ≡ h.size

  pub length-with_trailer :
      (raw : Bytes) (offset : ℕ) → length (with_trailer raw offset) ≡ length raw + 5
  unfolding encode_block_with_trailer
  length-with_trailer raw offset = omega (arith, length-append raw _, length-le_bytes 4 _)

  pub IsStored-append :
      (file : Bytes) (h : BlockHandle) (raw more : Bytes)
      → IsStored file h raw
      → IsStored (file ++ more) h raw
  IsStored-append file h raw more s = record {
    front = s.front;
    rest = s.rest ++ more;
    split_up =
        ap (λ (x : Bytes). x ++ more) s.split_up
        ∙ append_assoc s.front (with_trailer raw h.offset ++ s.rest) more
        ∙ ap (◌++◌ s.front) (append_assoc (with_trailer raw h.offset) s.rest more);
    placed = s.placed;
    sized = s.sized;
  }

  -- What `append_block` appends is stored under its handle.
  pub append_block-IsStored :
      (file raw : Bytes)
      → length file < 2 ^ 64
      → length raw < 2 ^ 64
      → IsStored (append_block hashes opts file raw).0 (append_block hashes opts file raw).1 raw
  unfolding append_block
  append_block-IsStored file raw h k = record {
    front = file;
    rest = [];
    split_up = ap (◌++◌ file) (sym (append-nil (with_trailer raw (u64 (length file)))));
    placed = omega arith;
    sized = omega arith;
  }

  pub append_block-handle :
      (file raw : Bytes)
      → length file < 2 ^ 64
      → length raw < 2 ^ 64
      → ((append_block hashes opts file raw).1.offset ≡ length file)
        × ((append_block hashes opts file raw).1.size ≡ length raw)
  unfolding append_block
  append_block-handle file raw h k = (omega arith, omega arith)

  pub length-append_block :
      (file raw : Bytes)
      → length (append_block hashes opts file raw).0 ≡ length file + length raw + 5
  unfolding append_block
  length-append_block file raw = omega (
    arith,
    length-append file (with_trailer raw (u64 (length file))),
    length-with_trailer raw (u64 (length file)),
  )

  -- The read that a decoder makes of a stored block.
  pub slice-IsStored :
      (file : Bytes) (h : BlockHandle) (raw : Bytes)
      → IsStored file h raw
      → slice file h.offset (h.size + 5) ≡ some (with_trailer raw h.offset)
  slice-IsStored file h raw s =
      let n = length-with_trailer raw h.offset in
      let sized : length (with_trailer raw h.offset) ≡ h.size + 5 = omega (arith, n, s.sized) in
      let whole = with_trailer raw h.offset ++ s.rest in
      rw (sym sized, s.split_up)
        (slice-drop h.offset (s.front ++ whole) (with_trailer raw h.offset) s.rest
          (rw s.placed at (drop-append_length s.front whole))
          (omega (arith, s.placed, length-append s.front whole)))

  pub record Mismatch : Type 1 where
    pub never : ⊥

  -- Each handle has a stored block that holds its list of entries.
  abbrev pub AllStored : Bytes → List IndexEntry → List (List KeyValue) → Type 1
  AllStored file [] [] = Unit {1}
  AllStored file ((key, h) ∷ hs) (es ∷ ess) =
      ((raw : Bytes) × IsStored file h raw × Holds raw es) × AllStored file hs ess
  AllStored file _ _ = Mismatch

  pub AllStored-append :
      (file : Bytes) (hs : List IndexEntry) (ess : List (List KeyValue)) (more : Bytes)
      → AllStored file hs ess
      → AllStored (file ++ more) hs ess
  AllStored-append file [] [] more t = tt
  AllStored-append file [] (es ∷ ess) more t = absurd t.never
  AllStored-append file ((k, h) ∷ hs) [] more t = absurd t.never
  AllStored-append file ((k, h) ∷ hs) (es ∷ ess) more ((raw, s, held), t) =
      ((raw, IsStored-append file h raw more s, held), AllStored-append file hs ess more t)

  pub AllStored-snoc :
      (file : Bytes) (hs : List IndexEntry) (ess : List (List KeyValue)) (key : Bytes)
      (h : BlockHandle) (es : List KeyValue) (raw : Bytes)
      → AllStored file hs ess
      → IsStored file h raw
      → Holds raw es
      → AllStored file (hs ++ (key, h) ∷ []) (ess ++ es ∷ [])
  AllStored-snoc file [] [] key h es raw t s held = ((raw, s, held), tt)
  AllStored-snoc file [] (_ ∷ ess) key h es raw t s held = absurd t.never
  AllStored-snoc file ((k, h') ∷ hs) [] key h es raw t s held = absurd t.never
  AllStored-snoc file ((k, h') ∷ hs) (es' ∷ ess) key h es raw (t, ts) s held =
      (t, AllStored-snoc file hs ess key h es raw ts s held)
