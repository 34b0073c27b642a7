-- ===== src/Format/Trailer.antt =====
-- crates/compactor/src/format/block.rs, from the file to a block: the trailer with the compression
-- tag and the checksum. The decompressors of the crates snap, lz4_flex and zstd are parameters.
pub mod RoundTrip
use compactor.Prelude.{
  ℕ, zero, suc, ◌+◌, ◌-◌, Bool, Bytes, List, [], ◌∷◌, ◌++◌, Option, none, some, take, drop, length,
  not, ◌&&◌, ◌==◌, if◌then◌else◌,
}
use compactor.Format.Error.{
  Error, Result, ok, err, ok_or, ◌>>=◌, wrong_block_size, checksum_mismatch, unknown_compression,
  unsupported_compression, decompress_failed, truncated_size_prefix,
}
use compactor.Format.Fixed.{to_le_bytes32, from_le_bytes}
use compactor.Format.Varint.{get_varint64}
use compactor.Format.Checksum.{
  BlockHandle, ChecksumType, is_checked, Hashes, wrapping_add, checksum_modifier_for_context,
  compute_checksum_with_last_byte,
}

pub data CompressionType : Type 0 where
  no_compression snappy zlib bzip2 lz4 lz4hc xpress zstd : CompressionType

unfoldable pub compression_from_byte : ℕ → Result CompressionType
compression_from_byte b =
    if b == 0
    then ok no_compression
    else if b == 1
    then ok snappy
    else if b == 2
    then ok zlib
    else if b == 3
    then ok bzip2
    else if b == 4
    then ok lz4
    else if b == 5
    then ok lz4hc
    else if b == 6
    then ok xpress
    else if b == 7
    then ok zstd
    else err unknown_compression

unfoldable pub compression_to_byte : CompressionType → ℕ
compression_to_byte no_compression = 0
compression_to_byte snappy = 1
compression_to_byte zlib = 2
compression_to_byte bzip2 = 3
compression_to_byte lz4 = 4
compression_to_byte lz4hc = 5
compression_to_byte xpress = 6
compression_to_byte zstd = 7

abbrev pub block_trailer_size : ℕ
block_trailer_size = 5

unfoldable pub block_read_len : BlockHandle → ℕ
block_read_len handle = handle.size + block_trailer_size

-- `none` where the library answers with an error. Lz4 and zstd are told the size of the result.
pub record Decompressors : Type 0 where
  pub snappy_decompress : Bytes → Option Bytes
  pub lz4_decompress : Bytes → ℕ → Option Bytes
  pub zstd_decompress : Bytes → ℕ → Option Bytes

unfoldable pub split_uncompressed_size_prefix : Bytes → Result (ℕ × Bytes)
split_uncompressed_size_prefix bytes = do
  (size, pos) ← ok_or (get_varint64 bytes 0) truncated_size_prefix
  ok (size, drop pos bytes)

-- What is borrowed in the source is the argument here.
unfoldable pub decompress : Decompressors → CompressionType → Bytes → Result Bytes
decompress d no_compression bytes = ok bytes
decompress d snappy bytes = ok_or (d.snappy_decompress bytes) decompress_failed
decompress d lz4 bytes = do
  (size, payload) ← split_uncompressed_size_prefix bytes
  ok_or (d.lz4_decompress payload size) decompress_failed
decompress d lz4hc bytes = do
  (size, payload) ← split_uncompressed_size_prefix bytes
  ok_or (d.lz4_decompress payload size) decompress_failed
decompress d zstd bytes = do
  (size, payload) ← split_uncompressed_size_prefix bytes
  ok_or (d.zstd_decompress payload size) decompress_failed
decompress d zlib bytes = err unsupported_compression
decompress d bzip2 bytes = err unsupported_compression
decompress d xpress bytes = err unsupported_compression

module _ (hashes : Hashes) (checksum_type : ChecksumType) (base_context_checksum : ℕ) where
  -- The checksum of the block at `offset`, as it is written and as it is checked.
  unfoldable pub block_checksum : Bytes → ℕ → ℕ → ℕ
  block_checksum raw comp_byte offset =
      wrapping_add (compute_checksum_with_last_byte hashes checksum_type raw comp_byte)
        (checksum_modifier_for_context base_context_checksum offset)

  unfoldable pub encode_block_with_trailer : Bytes → ℕ → Bytes
  encode_block_with_trailer raw_contents offset =
      let comp_byte = compression_to_byte no_compression in
      raw_contents ++ comp_byte ∷ to_le_bytes32 (block_checksum raw_contents comp_byte offset)

  -- The trailer is the five bytes behind the block.
  unfoldable pub check_trailer : Decompressors → BlockHandle → Bytes → Bytes → Result Bytes
  check_trailer d handle raw [] = err wrong_block_size
  check_trailer d handle raw (comp_byte ∷ stored) =
      if is_checked checksum_type
        && not (block_checksum raw comp_byte handle.offset == from_le_bytes stored)
      then err checksum_mismatch
      else do compression ← compression_from_byte comp_byte; decompress d compression raw

  unfoldable pub decode_block_contents : Decompressors → BlockHandle → Bytes → Result Bytes
  decode_block_contents d handle raw_with_trailer =
      if length raw_with_trailer == handle.size + block_trailer_size
      then check_trailer d handle (take handle.size raw_with_trailer)
          (drop handle.size raw_with_trailer)
      else err wrong_block_size
