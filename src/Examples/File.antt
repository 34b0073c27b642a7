-- ===== src/Examples/File.antt =====
-- A block with its trailer and a footer, with small functions for the hashes and the decompressors.
use compactor.Prelude.{ℕ, ◌+◌, ◌≡◌, Bytes, [], ◌∷◌, none, some, length, arith}
use compactor.Format.Error.{ok}
use compactor.Format.Checksum.{Hashes, crc32c, xx_h3, BlockHandle}
use compactor.Format.Trailer.{Decompressors, decode_block_contents, encode_block_with_trailer}
use compactor.Format.Trailer.RoundTrip.{decode_block_contents-encode_block_with_trailer}
use compactor.Format.Footer.{block_based_table_magic, encode_footer_v6_plus, decode_footer}
use compactor.Format.Footer.RoundTrip.{decode_footer-encode_footer_v6_plus}

pub sum_bytes : ℕ → Bytes → ℕ
sum_bytes start [] = start
sum_bytes start (b ∷ bs) = sum_bytes (start + b) bs

abbrev pub sums : Hashes
sums = record {
  crc32c_append = sum_bytes;
  xxh32 = sum_bytes 1;
  xxh64 = sum_bytes 2;
  xxh3_64 = sum_bytes 3;
}

abbrev pub no_decompressors : Decompressors
no_decompressors = record {
  snappy_decompress = λ bytes. none;
  lz4_decompress = λ bytes size. none;
  zstd_decompress = λ bytes size. none;
}

abbrev metaindex : BlockHandle
metaindex = record { offset = 300; size = 40 }

decode_block_contents-encode_block_with_trailer_example :
    decode_block_contents sums crc32c 77 no_decompressors
      (record { offset = 4096; size = 3 })
      (encode_block_with_trailer sums crc32c 77 (5 ∷ 6 ∷ 7 ∷ []) 4096)
    ≡ ok (5 ∷ 6 ∷ 7 ∷ [])
decode_block_contents-encode_block_with_trailer_example =
    decode_block_contents-encode_block_with_trailer sums crc32c 77 no_decompressors (5 ∷ 6 ∷ 7 ∷ [])
      4096

decode_footer-encode_footer_v6_plus_example :
    (bytes : Bytes) × (encode_footer_v6_plus sums 6 xx_h3 metaindex 9 345 ≡ some bytes)
    × (length bytes ≡ 53)
    × (decode_footer sums bytes (345 + 53)
        ≡ ok (record {
          table_magic_number = block_based_table_magic;
          format_version = 6;
          checksum_type = xx_h3;
          metaindex_handle = metaindex;
          index_handle = none;
          block_trailer_size = 5;
          base_context_checksum = 9;
        }))
decode_footer-encode_footer_v6_plus_example =
    decode_footer-encode_footer_v6_plus sums 6 xx_h3 metaindex 9 345 (omega arith) (omega arith)
      (omega arith) (omega arith) (omega arith) (omega arith)
