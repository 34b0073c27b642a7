-- ===== src/Format/Properties.antt =====
-- The properties block of crates/compactor/src/format/properties.rs. A `String` is its bytes; the
-- names are ASCII. `none` is a failed assertion of the builder.
pub mod RoundTrip
pub mod Lookup
pub mod Order
pub mod Contents
use Prim.Native.Char.{code}
use Prim.Native.String.{String}
use compactor.Prelude.{
  ℕ, ◌-◌, ◌^◌, ◌==◌, Bytes, List, [], ◌∷◌, ◌++◌, Option, none, some, ◌>>=◌, length, if◌then◌else◌,
}
use compactor.Format.Fixed.{to_le_bytes32, to_le_bytes64}
use compactor.Format.Varint.{put_varint64}
use compactor.Format.BlockBuilder.{new, finish}
use compactor.Format.BlockBuilder.Encoding.{add_all}
use compactor.Format.Sorted.{sort_by_name}

-- The bytes of an ASCII text.
abbrev pub as_bytes : String → Bytes
as_bytes String.[] = []
as_bytes (String.◌∷◌ c s) = code c ∷ as_bytes s

abbrev pub properties_block_name : Bytes
properties_block_name = as_bytes "rocksdb.properties"

abbrev pub index_block_name : Bytes
index_block_name = as_bytes "rocksdb.index"

abbrev pub key_index_type : Bytes
key_index_type = as_bytes "rocksdb.block.based.table.index.type"

abbrev pub key_num_entries : Bytes
key_num_entries = as_bytes "rocksdb.num.entries"

abbrev pub key_raw_key_size : Bytes
key_raw_key_size = as_bytes "rocksdb.raw.key.size"

abbrev pub key_raw_value_size : Bytes
key_raw_value_size = as_bytes "rocksdb.raw.value.size"

abbrev pub key_data_size : Bytes
key_data_size = as_bytes "rocksdb.data.size"

abbrev pub key_index_size : Bytes
key_index_size = as_bytes "rocksdb.index.size"

abbrev pub key_index_key_is_user_key : Bytes
key_index_key_is_user_key = as_bytes "rocksdb.index.key.is.user.key"

abbrev pub key_index_value_is_delta_encoded : Bytes
key_index_value_is_delta_encoded = as_bytes "rocksdb.index.value.is.delta.encoded"

abbrev pub key_comparator : Bytes
key_comparator = as_bytes "rocksdb.comparator"

abbrev pub key_column_family_id : Bytes
key_column_family_id = as_bytes "rocksdb.column.family.id"

abbrev pub key_column_family_name : Bytes
key_column_family_name = as_bytes "rocksdb.column.family.name"

abbrev pub key_external_version : Bytes
key_external_version = as_bytes "rocksdb.external_sst_file.version"

abbrev pub key_external_global_seqno : Bytes
key_external_global_seqno = as_bytes "rocksdb.external_sst_file.global_seqno"

abbrev pub external_sst_version : ℕ
external_sst_version = 2

abbrev pub index_type_binary_search : ℕ
index_type_binary_search = 0

abbrev pub bytewise_comparator_name : Bytes
bytewise_comparator_name = as_bytes "leveldb.BytewiseComparator"

pub record PropertiesInput : Type 0 where
  pub num_entries : ℕ
  pub raw_key_size : ℕ
  pub raw_value_size : ℕ
  pub data_size : ℕ
  pub index_size : ℕ
  pub comparator_name : Bytes
  pub column_family_id : ℕ
  pub column_family_name : Bytes
  pub external_sst_global_seqno : Option ℕ

unfoldable pub varint64_bytes : ℕ → Bytes
varint64_bytes v = put_varint64 [] v

-- `if !name.is_empty() { entries.push(…) }`
unfoldable pub named : Bytes → Bytes → List (Bytes × Bytes)
named key name = if length name == 0 then [] else (key, name) ∷ []

unfoldable pub external_entries : Option ℕ → List (Bytes × Bytes)
external_entries none = []
external_entries (some global_seqno) =
    (key_external_version, to_le_bytes32 external_sst_version)
    ∷ (key_external_global_seqno, to_le_bytes64 global_seqno)
    ∷ []

-- The entries in the order in which they are pushed.
unfoldable pub property_entries : PropertiesInput → List (Bytes × Bytes)
property_entries props =
    (key_index_type, to_le_bytes32 index_type_binary_search)
    ∷ (key_num_entries, varint64_bytes props.num_entries)
    ∷ (key_raw_key_size, varint64_bytes props.raw_key_size)
    ∷ (key_raw_value_size, varint64_bytes props.raw_value_size)
    ∷ (key_data_size, varint64_bytes props.data_size)
    ∷ (key_index_size, varint64_bytes props.index_size)
    ∷ (key_index_key_is_user_key, varint64_bytes 0)
    ∷ (key_index_value_is_delta_encoded, varint64_bytes 1)
    ∷ (named key_comparator props.comparator_name
        ++ ((key_column_family_id, varint64_bytes props.column_family_id)
            ∷ (named key_column_family_name props.column_family_name
                ++ external_entries props.external_sst_global_seqno)))

-- `usize::MAX`
abbrev pub usize_max : ℕ
usize_max = 2 ^ 64 - 1

unfoldable pub build_properties_block : PropertiesInput → Option Bytes
build_properties_block props = do
  b ← new usize_max
  b' ← add_all b (sort_by_name (property_entries props))
  some (finish b')
