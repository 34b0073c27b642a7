-- ===== src/Format/InternalKey/Laws.antt =====
-- The internal keys that writers pack, and their split.
use compactor.Prelude.{
  ℕ, ◌+◌, ◌-◌, ◌/◌, ◌%◌, ◌^◌, ◌<◌, ◌≡◌, ap, ◌∙◌, bit_and, Bytes, ◌++◌, take, drop, length,
  length-append, arith, take-append_length, drop-append_length, ltb, le→ltb, false,
}
use compactor.Prelude.Bits.{u8, low_byte}
use compactor.Format.Error.{ok}
use compactor.Format.Fixed.{to_le_bytes64, from_le_bytes-le_bytes, length-le_bytes}
use compactor.Format.InternalKey.{split, from_byte}

-- `user_key ++ packed.to_le_bytes()`
unfoldable pub pack_key : Bytes → ℕ → Bytes
pack_key user packed = user ++ to_le_bytes64 packed

module _ (user : Bytes) (packed : ℕ) where
  pub length-pack_key : length (pack_key user packed) ≡ length user + 8
  unfolding pack_key
  length-pack_key =
      length-append user _ ∙ ap (λ (k : ℕ). length user + k) (length-le_bytes 8 packed)

  at_suffix : length (pack_key user packed) - 8 ≡ length user
  at_suffix = omega (arith, length-pack_key)

  pub take-pack_key : take (length (pack_key user packed) - 8) (pack_key user packed) ≡ user
  unfolding pack_key
  take-pack_key = rw at_suffix (take-append_length user _)

  pub drop-pack_key :
      drop (length (pack_key user packed) - 8) (pack_key user packed) ≡ to_le_bytes64 packed
  unfolding pack_key
  drop-pack_key = rw at_suffix (drop-append_length user _)

  type_byte : u8 (bit_and packed 0xff) ≡ packed % 2 ^ 8
  type_byte = omega (arith, low_byte packed)

  -- An internal key that a writer packed from a user key and a packed u64 splits into that user
  -- key, the number above the low byte, and the type that the low byte names.
  pub split-pack_key :
      packed < 2 ^ 64
      → split (pack_key user packed)
        ≡ ok (record {
          user_key = user;
          sequence = packed / 2 ^ 8;
          value_type = from_byte (packed % 2 ^ 8);
        })
  unfolding split
  split-pack_key h =
      let long : ltb (length (pack_key user packed)) 8 ≡ false =
        le→ltb _ _ (omega (arith, length-pack_key)) in
      rw (long, take-pack_key, drop-pack_key, from_le_bytes-le_bytes 8 packed h, type_byte)
