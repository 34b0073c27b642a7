-- ===== src/Format/Trailer/RoundTrip.antt =====
-- A block with its trailer, written and read.
use compactor.Prelude.{
  ℕ, ◌+◌, ◌^◌, ◌<◌, ◌≡◌, Bytes, ◌∷◌, ◌++◌, length, length-append, take-append_length,
  drop-append_length, arith,
}
use compactor.Format.Error.{ok}
use compactor.Format.Fixed.{to_le_bytes32, from_le_bytes-le_bytes, length-le_bytes}
use compactor.Format.Checksum.{ChecksumType, Hashes}
use compactor.Format.Trailer.{
  Decompressors, block_checksum, encode_block_with_trailer, check_trailer, decode_block_contents,
  compression_from_byte, compression_to_byte, decompress,
}

module _ (hashes : Hashes) (checksum_type : ChecksumType) (base_context_checksum : ℕ)
    (d : Decompressors) (raw : Bytes) (offset : ℕ) where
  block_checksum-u32 :
      (comp_byte : ℕ)
      → block_checksum hashes checksum_type base_context_checksum raw comp_byte offset < 256 ^ 4
  unfolding block_checksum
  block_checksum-u32 comp_byte = omega arith

  -- Whatever the hash functions and the decompressors, a block that `encode_block_with_trailer`
  -- wrote for an offset is decoded, under its handle and with the same kind of checksum and context,
  -- to the contents that went in.
  pub decode_block_contents-encode_block_with_trailer :
      decode_block_contents hashes checksum_type base_context_checksum d
        (record { offset = offset; size = length raw })
        (encode_block_with_trailer hashes checksum_type base_context_checksum raw offset)
      ≡ ok raw
  unfolding decode_block_contents encode_block_with_trailer check_trailer compression_from_byte
      compression_to_byte decompress
  decode_block_contents-encode_block_with_trailer =
      let c = block_checksum hashes checksum_type base_context_checksum raw 0 offset in
      let n : length (raw ++ 0 ∷ to_le_bytes32 c) ≡ length raw + 5 =
        omega (arith, length-append raw (0 ∷ to_le_bytes32 c), length-le_bytes 4 c) in
      rw
        (
          n,
          take-append_length raw (0 ∷ to_le_bytes32 c),
          drop-append_length raw (0 ∷ to_le_bytes32 c),
          from_le_bytes-le_bytes 4 c (block_checksum-u32 0),
        )
        (ground arith)
