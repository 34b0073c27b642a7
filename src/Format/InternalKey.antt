-- ===== src/Format/InternalKey.antt =====
-- crates/compactor/src/format/internal_key.rs: `user_key ++ (seq:56 | type:8)`, the latter packed
-- little-endian as a u64.
pub mod Laws
use compactor.Prelude.{
  ℕ, ◌-◌, ◌/◌, ◌^◌, bit_and, Bytes, take, drop, length, ltb, ◌==◌, if◌then◌else◌,
}
use compactor.Prelude.Bits.{u8}
use compactor.Format.Error.{Result, ok, err, short_internal_key}
use compactor.Format.Fixed.{from_le_bytes}

pub data ValueType : Type 0 where
  deletion value merge single_deletion range_deletion blob_index : ValueType
  other : ℕ → ValueType

unfoldable pub from_byte : ℕ → ValueType
from_byte b =
    if b == 0x0
    then deletion
    else if b == 0x1
    then value
    else if b == 0x2
    then merge
    else if b == 0x7
    then single_deletion
    else if b == 0xf
    then range_deletion
    else if b == 0x11
    then blob_index
    else other b

pub record InternalKey : Type 0 where
  pub user_key : Bytes
  pub sequence : ℕ
  pub value_type : ValueType

abbrev pub num_internal_bytes : ℕ
num_internal_bytes = 8

unfoldable pub split : Bytes → Result InternalKey
split internal_key =
    if ltb (length internal_key) num_internal_bytes
    then err short_internal_key
    else let split_at = length internal_key - num_internal_bytes in
      let packed = from_le_bytes (drop split_at internal_key) in
      ok (record {
        user_key = take split_at internal_key;
        sequence = packed / 2 ^ 8;
        value_type = from_byte (u8 (bit_and packed 0xff));
      })
