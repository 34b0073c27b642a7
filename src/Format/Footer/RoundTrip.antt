-- ===== src/Format/Footer/RoundTrip.antt =====
-- A footer of format version 6 or 7, written and read.
use compactor.Prelude.{
  ℕ, ◌+◌, ◌^◌, ◌≤◌, ◌<◌, ◌≡◌, refl, ap, Bytes, ◌∷◌, ◌++◌, length, replicate, arith, le→leb, lt→ltb,
  none, some, get_elem?,
}
use compactor.Format.Error.{ok}
use compactor.Format.Fixed.{
  to_le_bytes32, to_le_bytes64, le_bytes, from_le_bytes, from_le_bytes-le_bytes,
}
use compactor.Format.Block.{u32_at}
use compactor.Format.Checksum.{
  BlockHandle, ChecksumType, no_checksum, crc32c, xx_hash, xx_hash64, xx_h3, checksum_from_byte,
  Hashes, wrapping_add, checksum_modifier_for_context, compute_checksum_plain,
}
use compactor.Format.Footer.{
  block_based_table_magic, extended_magic, wrapping_sub, u64_at, checksum_byte, overwrite,
  encode_footer_v6_plus, decode_new, decode_footer,
}

-- The footer with each of its fields.
unfoldable layout : ℕ → ℕ → ℕ → ℕ → ℕ → Bytes
layout byte checksum base size version =
    byte
    ∷ (to_le_bytes32 extended_magic
        ++ (to_le_bytes32 checksum
            ++ (to_le_bytes32 base
                ++ (to_le_bytes32 size
                    ++ (replicate 24 0
                        ++ (to_le_bytes32 version ++ to_le_bytes64 block_based_table_magic))))))

module _ (byte checksum base size version : ℕ) where
  first_byte : get_elem? (layout byte checksum base size version) 0 ≡ some byte
  unfolding layout
  first_byte = refl

  length-layout : length (layout byte checksum base size version) ≡ 53
  unfolding layout le_bytes
  length-layout = refl

  checksum_at : checksum < 2 ^ 32 → u32_at (layout byte checksum base size version) 5 ≡ checksum
  unfolding layout le_bytes u32_at from_le_bytes
  checksum_at h = from_le_bytes-le_bytes 4 checksum h

  base_at : base < 2 ^ 32 → u32_at (layout byte checksum base size version) 9 ≡ base
  unfolding layout le_bytes u32_at from_le_bytes
  base_at h = from_le_bytes-le_bytes 4 base h

  size_at : size < 2 ^ 32 → u32_at (layout byte checksum base size version) 13 ≡ size
  unfolding layout le_bytes u32_at from_le_bytes
  size_at h = from_le_bytes-le_bytes 4 size h

  version_at : version < 2 ^ 32 → u32_at (layout byte checksum base size version) 41 ≡ version
  unfolding layout le_bytes u32_at from_le_bytes
  version_at h = from_le_bytes-le_bytes 4 version h

  extended_at : u32_at (layout byte checksum base size version) 1 ≡ extended_magic
  unfolding layout le_bytes u32_at from_le_bytes
  extended_at = refl

  reserved_at : u64_at (layout byte checksum base size version) 33 ≡ 0
  unfolding layout le_bytes u64_at from_le_bytes
  reserved_at = refl

  magic_at : u64_at (layout byte checksum base size version) 45 ≡ block_based_table_magic
  unfolding layout le_bytes u64_at from_le_bytes
  magic_at = refl

  overwrite-layout :
      (c : ℕ)
      → overwrite (layout byte checksum base size version) 5 (to_le_bytes32 c)
        ≡ layout byte c base size version
  unfolding layout le_bytes overwrite
  overwrite-layout c = refl

  zeroed-layout :
      overwrite (layout byte checksum base size version) 5 (replicate 4 0)
      ≡ layout byte 0 base size version
  unfolding layout le_bytes overwrite
  zeroed-layout = refl

checksum_from_byte-checksum_byte :
    (t : ChecksumType) → checksum_from_byte (checksum_byte t) ≡ some t
unfolding checksum_from_byte checksum_byte
checksum_from_byte-checksum_byte no_checksum = refl
checksum_from_byte-checksum_byte crc32c = refl
checksum_from_byte-checksum_byte xx_hash = refl
checksum_from_byte-checksum_byte xx_hash64 = refl
checksum_from_byte-checksum_byte xx_h3 = refl

module _ (hashes : Hashes) (version : ℕ) (t : ChecksumType) (h : BlockHandle)
    (base footer_offset : ℕ) where
  sum : ℕ
  sum =
      wrapping_add
        (compute_checksum_plain hashes t (layout (checksum_byte t) 0 base h.size version))
        (checksum_modifier_for_context base footer_offset)

  encode-layout :
      6 ≤ version
      → h.size < 2 ^ 32
      → encode_footer_v6_plus hashes version t h base footer_offset
        ≡ some (layout (checksum_byte t) sum base h.size version)
  unfolding encode_footer_v6_plus layout sum
  encode-layout hv hs =
      rw (le→leb 6 version hv, lt→ltb h.size (2 ^ 32) hs)
        (ap some (overwrite-layout (checksum_byte t) 0 base h.size version sum))

  decode_new-layout :
      base < 2 ^ 32
      → h.size < 2 ^ 32
      → h.offset + h.size + 5 ≡ footer_offset
      → footer_offset < 2 ^ 64
      → decode_new hashes
          (layout (checksum_byte t) sum base h.size version)
          block_based_table_magic
          version
          footer_offset
          t
        ≡ ok (record {
          table_magic_number = block_based_table_magic;
          format_version = version;
          checksum_type = t;
          metaindex_handle = h;
          index_handle = none;
          block_trailer_size = 5;
          base_context_checksum = base;
        })
  unfolding decode_new sum
  decode_new-layout hb hs placed ho =
      let computed : wrapping_add
            (compute_checksum_plain hashes t (layout (checksum_byte t) 0 base h.size version))
            (checksum_modifier_for_context base footer_offset)
          ≡ sum =
        refl in
      let offset : wrapping_sub (wrapping_sub footer_offset 5) h.size ≡ h.offset = omega arith in
      rw
        (
          zeroed-layout (checksum_byte t) sum base h.size version,
          extended_at (checksum_byte t) sum base h.size version,
          reserved_at (checksum_byte t) sum base h.size version,
          base_at (checksum_byte t) sum base h.size version hb,
          size_at (checksum_byte t) sum base h.size version hs,
          checksum_at (checksum_byte t) sum base h.size version (omega arith),
          offset,
        )
        (ground (arith, computed))

  -- A footer that `encode_footer_v6_plus` writes for version 6 or 7, whatever the hash functions,
  -- where the metaindex block of less than 4 GiB ends with its trailer at the footer: the encoder
  -- does not fail, and `decode_footer` of the bytes, with the file's size, gives back the version,
  -- the kind of checksum, the context and the handle of the metaindex.
  pub decode_footer-encode_footer_v6_plus :
      6 ≤ version
      → version ≤ 7
      → base < 2 ^ 32
      → h.size < 2 ^ 32
      → h.offset + h.size + 5 ≡ footer_offset
      → footer_offset + 53 < 2 ^ 64
      → (bytes : Bytes) × (encode_footer_v6_plus hashes version t h base footer_offset ≡ some bytes)
        × (length bytes ≡ 53)
        × (decode_footer hashes bytes (footer_offset + 53)
            ≡ ok (record {
              table_magic_number = block_based_table_magic;
              format_version = version;
              checksum_type = t;
              metaindex_handle = h;
              index_handle = none;
              block_trailer_size = 5;
              base_context_checksum = base;
            }))
  unfolding decode_footer
  decode_footer-encode_footer_v6_plus h6 h7 hb hs placed ho =
      let bytes = layout (checksum_byte t) sum base h.size version in
      let n : length bytes ≡ 53 = length-layout (checksum_byte t) sum base h.size version in
      let offset : wrapping_sub (footer_offset + 53) 53 ≡ footer_offset = omega arith in
      (
        bytes,
        encode-layout h6 hs,
        n,
        rw
            (
              n,
              magic_at (checksum_byte t) sum base h.size version,
              version_at (checksum_byte t) sum base h.size version (omega arith),
              offset,
              le→leb 6 version h6,
              le→leb version 7 h7,
              le→leb 2 version (omega arith),
              first_byte (checksum_byte t) sum base h.size version,
              checksum_from_byte-checksum_byte t,
            )
            (decode_new-layout hb hs placed (omega arith)),
      )
