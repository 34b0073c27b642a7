-- ===== src/Format/Footer.antt =====
-- crates/compactor/src/format/footer.rs. The subtractions of offsets in u64 wrap around, as they
-- do where overflow is not checked. `none` of the encoder is a failed assertion or conversion.
pub mod RoundTrip
use compactor.Prelude.{
  ℕ, ◌+◌, ◌-◌, ◌%◌, ◌^◌, Bool, true, false, Bytes, List, [], ◌∷◌, ◌++◌, Option, none, some, ◌>>=◌,
  take, drop, length, replicate, get_elem?, ltb, leb, not, ◌&&◌, ◌||◌, ◌==◌, if◌then◌else◌,
}
use compactor.Prelude.Bits.{u32, u64}
use compactor.Format.Error
use compactor.Format.Error.{
  Error, Result, ok, err, ok_or, footer_too_short, bad_magic, unsupported_version,
  unsupported_checksum, bad_extended_magic, footer_checksum_mismatch, future_feature,
  bad_metaindex_handle, bad_index_handle,
}
use compactor.Format.Fixed.{to_le_bytes32, to_le_bytes64, from_le_bytes}
use compactor.Format.Varint.{get_varint64}
use compactor.Format.Block.{u32_at}
use compactor.Format.Checksum.{
  BlockHandle, ChecksumType, no_checksum, crc32c, xx_hash, xx_hash64, xx_h3, checksum_from_byte,
  is_checked, Hashes, wrapping_add, checksum_modifier_for_context, compute_checksum_plain,
}

abbrev pub block_based_table_magic : ℕ
block_based_table_magic = 0x88e2_41b7_85f4_cff7

abbrev pub magic_number_len : ℕ
magic_number_len = 8

-- `1 + 2 * BLOCK_HANDLE_MAX_ENCODED_LEN + 4 + MAGIC_NUMBER_LEN`
abbrev pub new_versions_encoded_len : ℕ
new_versions_encoded_len = 53

-- `[0x3e, 0x00, 0x7a, 0x00]`, read as a little-endian number.
abbrev pub extended_magic : ℕ
extended_magic = 0x007a_003e

pub record Footer : Type 0 where
  pub table_magic_number : ℕ
  pub format_version : ℕ
  pub checksum_type : ChecksumType
  pub metaindex_handle : BlockHandle
  pub index_handle : Option BlockHandle
  pub block_trailer_size : ℕ
  pub base_context_checksum : ℕ

abbrev pub wrapping_sub : ℕ → ℕ → ℕ
wrapping_sub a b = u64 (a + 2 ^ 64 - b)

unfoldable pub u64_at : Bytes → ℕ → ℕ
u64_at bytes off = from_le_bytes (take 8 (drop off bytes))

unfoldable pub decode_block_handle : Bytes → ℕ → Option (BlockHandle × ℕ)
decode_block_handle buf pos = do
  (offset, pos₁) ← get_varint64 buf pos
  (size, pos₂) ← get_varint64 buf pos₁
  some (record { offset = offset; size = size }, pos₂)

unfoldable pub checksum_byte : ChecksumType → ℕ
checksum_byte no_checksum = 0
checksum_byte crc32c = 1
checksum_byte xx_hash = 2
checksum_byte xx_hash64 = 3
checksum_byte xx_h3 = 4

-- `buf[at..at + new.len()].copy_from_slice(new)`
unfoldable pub overwrite : Bytes → ℕ → Bytes → Bytes
overwrite buf at new = take at buf ++ (new ++ drop (at + length new) buf)

module _ (hashes : Hashes) where
  unfoldable pub encode_footer_v6_plus : ℕ → ChecksumType → BlockHandle → ℕ → ℕ → Option Bytes
  encode_footer_v6_plus format_version checksum_type metaindex_handle base_context_checksum
        footer_offset =
      let buf =
        checksum_byte checksum_type
        ∷ (to_le_bytes32 extended_magic
            ++ (to_le_bytes32 0
                ++ (to_le_bytes32 base_context_checksum
                    ++ (to_le_bytes32 metaindex_handle.size
                        ++ (replicate 24 0
                            ++ (to_le_bytes32 format_version
                                ++ to_le_bytes64 block_based_table_magic)))))) in
      let checksum =
        wrapping_add (compute_checksum_plain hashes checksum_type buf)
          (checksum_modifier_for_context base_context_checksum footer_offset) in
      if leb 6 format_version && ltb metaindex_handle.size (2 ^ 32)
      then some (overwrite buf 5 (to_le_bytes32 checksum))
      else none

  -- The part of `decode_footer` for format versions from 6 on.
  unfoldable pub decode_new : Bytes → ℕ → ℕ → ℕ → ChecksumType → Result Footer
  decode_new tail magic format_version footer_offset checksum_type =
      let stored_checksum = u32_at tail 5 in
      let base_context_checksum = u32_at tail 9 in
      let metaindex_size = u32_at tail 13 in
      let computed =
        wrapping_add
          (compute_checksum_plain hashes checksum_type (overwrite tail 5 (replicate 4 0)))
          (checksum_modifier_for_context base_context_checksum footer_offset) in
      let metaindex_end = wrapping_sub footer_offset 5 in
      if not (u32_at tail 1 == extended_magic)
      then err bad_extended_magic
      else if is_checked checksum_type && not (computed == stored_checksum)
      then err footer_checksum_mismatch
      else if not (u64_at tail 33 == 0)
      then err future_feature
      else ok (record {
        table_magic_number = magic;
        format_version = format_version;
        checksum_type = checksum_type;
        metaindex_handle = record {
          offset = wrapping_sub metaindex_end metaindex_size;
          size = metaindex_size;
        };
        index_handle = none;
        block_trailer_size = 5;
        base_context_checksum = base_context_checksum;
      })

-- The part for the versions before 6.
unfoldable pub decode_old : Bytes → ℕ → ℕ → ℕ → ChecksumType → Result Footer
decode_old tail magic magic_pos format_version checksum_type =
    let part2 = drop 1 (take (magic_pos - 4) tail) in
    Error.◌>>=◌ (ok_or (decode_block_handle part2 0) bad_metaindex_handle)
      (λ (metaindex_handle, p2pos).
        Error.◌>>=◌ (ok_or (decode_block_handle part2 p2pos) bad_index_handle) (λ (index_handle, _).
          ok (record {
            table_magic_number = magic;
            format_version = format_version;
            checksum_type = checksum_type;
            metaindex_handle = metaindex_handle;
            index_handle = some index_handle;
            block_trailer_size = 5;
            base_context_checksum = 0;
          })))

module _ (hashes : Hashes) where
  unfoldable pub decode_footer : Bytes → ℕ → Result Footer
  decode_footer tail file_size =
      let magic_pos = length tail - magic_number_len in
      let magic = u64_at tail magic_pos in
      let format_version = u32_at tail (magic_pos - 4) in
      let footer_offset = wrapping_sub file_size new_versions_encoded_len in
      if ltb (length tail) new_versions_encoded_len
      then err footer_too_short
      else if not (magic == block_based_table_magic)
      then err bad_magic
      else if not (leb 2 format_version && leb format_version 7)
      then err unsupported_version
      else Error.◌>>=◌
          (ok_or (do byte ← get_elem? tail 0; checksum_from_byte byte) unsupported_checksum)
          (λ checksum_type.
            if leb 6 format_version
            then decode_new hashes tail magic format_version footer_offset checksum_type
            else decode_old tail magic magic_pos format_version checksum_type)
