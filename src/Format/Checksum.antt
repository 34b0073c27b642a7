-- ===== src/Format/Checksum.antt =====
-- The checksums of crates/compactor/src/format/block.rs and format/footer.rs. The hash functions
-- of the crates crc32c and xxhash_rust are parameters. A streaming hash is the hash of all that it
-- was fed.
use compactor.Prelude.{
  ℕ, ◌+◌, ◌-◌, ◌*◌, ◌/◌, ◌^◌, Bool, true, false, Bytes, [], ◌∷◌, ◌++◌, Option, none, some, take,
  drop, length, bit_and, bit_or, bit_xor, ◌==◌, if◌then◌else◌,
}
use compactor.Prelude.Bits.{u32}

pub record BlockHandle : Type 0 where
  pub offset : ℕ
  pub size : ℕ

pub data ChecksumType : Type 0 where
  no_checksum crc32c xx_hash xx_hash64 xx_h3 : ChecksumType

unfoldable pub checksum_from_byte : ℕ → Option ChecksumType
checksum_from_byte b =
    if b == 0
    then some no_checksum
    else if b == 1
    then some crc32c
    else if b == 2
    then some xx_hash
    else if b == 3
    then some xx_hash64
    else if b == 4
    then some xx_h3
    else none

-- `checksum_type != ChecksumType::NoChecksum`
unfoldable pub is_checked : ChecksumType → Bool
is_checked no_checksum = false
is_checked _ = true

-- `crc32c_append`, of which `crc32c` is the case of the empty start, and the XXH functions with
-- seed 0.
pub record Hashes : Type 0 where
  pub crc32c_append : ℕ → Bytes → ℕ
  pub xxh32 : Bytes → ℕ
  pub xxh64 : Bytes → ℕ
  pub xxh3_64 : Bytes → ℕ

abbrev pub wrapping_add : ℕ → ℕ → ℕ
wrapping_add a b = u32 (a + b)

unfoldable pub mask_crc32c : ℕ → ℕ
mask_crc32c crc = wrapping_add (bit_or (crc / 2 ^ 15) (u32 (crc * 2 ^ 17))) 0xa282_ead8

unfoldable pub modify_checksum_for_last_byte : ℕ → ℕ → ℕ
modify_checksum_for_last_byte checksum last_byte = bit_xor checksum (u32 (last_byte * 0x6b90_83d9))

unfoldable pub checksum_modifier_for_context : ℕ → ℕ → ℕ
checksum_modifier_for_context base_context_checksum offset =
    if base_context_checksum == 0
    then 0
    else bit_xor base_context_checksum (wrapping_add (u32 offset) (u32 (offset / 2 ^ 32)))

module _ (hashes : Hashes) where
  unfoldable pub compute_checksum_with_last_byte : ChecksumType → Bytes → ℕ → ℕ
  compute_checksum_with_last_byte no_checksum data_ last_byte = 0
  compute_checksum_with_last_byte crc32c data_ last_byte =
      mask_crc32c (hashes.crc32c_append (hashes.crc32c_append 0 data_) (last_byte ∷ []))
  compute_checksum_with_last_byte xx_hash data_ last_byte = hashes.xxh32 (data_ ++ last_byte ∷ [])
  compute_checksum_with_last_byte xx_hash64 data_ last_byte =
      u32 (bit_and (hashes.xxh64 (data_ ++ last_byte ∷ [])) 0xffff_ffff)
  compute_checksum_with_last_byte xx_h3 data_ last_byte =
      modify_checksum_for_last_byte (u32 (bit_and (hashes.xxh3_64 data_) 0xffff_ffff)) last_byte

  -- `head` is all but the last byte, and the second argument is that byte where there is one.
  unfoldable pub xx_h3_plain : Bytes → Bytes → ℕ
  xx_h3_plain head [] = 0
  xx_h3_plain head (last ∷ _) =
      modify_checksum_for_last_byte (u32 (bit_and (hashes.xxh3_64 head) 0xffff_ffff)) last

  unfoldable pub compute_checksum_plain : ChecksumType → Bytes → ℕ
  compute_checksum_plain no_checksum data_ = 0
  compute_checksum_plain crc32c data_ = mask_crc32c (hashes.crc32c_append 0 data_)
  compute_checksum_plain xx_hash data_ = hashes.xxh32 data_
  compute_checksum_plain xx_hash64 data_ = u32 (bit_and (hashes.xxh64 data_) 0xffff_ffff)
  compute_checksum_plain xx_h3 data_ =
      let at = length data_ - 1 in xx_h3_plain (take at data_) (drop at data_)
