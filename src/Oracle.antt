-- ===== src/Oracle.antt =====
-- crates/oracle/src/lib.rs, the naive compaction that the fuzzer compares with. `none` is the panic
-- on a key that is shorter than the suffix.
pub mod TreeMap
pub mod Lookup
pub mod Unique
pub mod Distinct
pub mod Agreement
use compactor.Prelude.{
  ℕ, ◌-◌, ◌/◌, ◌^◌, ◌==◌, bit_and, Bool, true, false, not, Bytes, List, [], ◌∷◌, Option, none, some,
  ◌>>=◌, take, drop, length, ltb, leb, if◌then◌else◌, Ordering,
}
use compactor.Prelude.Bits.{u8}
use compactor.Format.Fixed.{from_le_bytes}
use compactor.Merge.Cmp.{compare_bytes}
use compactor.Merge.Source.{KeyValue}

abbrev pub oracle_suffix_len : ℕ
oracle_suffix_len = 8

pub data ValueType : Type 0 where
  deletion value single_deletion : ValueType
  other : ℕ → ValueType

unfoldable pub type_of : ℕ → ValueType
type_of b =
    if b == 0x0
    then deletion
    else if b == 0x1
    then value
    else if b == 0x7
    then single_deletion
    else other b

unfoldable pub decode_suffix : Bytes → Option (Bytes × ℕ × ValueType)
decode_suffix internal_key =
    if ltb (length internal_key) oracle_suffix_len
    then none
    else let at = length internal_key - oracle_suffix_len in
      let packed = from_le_bytes (drop at internal_key) in
      some (take at internal_key, packed / 2 ^ 8, type_of (u8 (bit_and packed 0xff)))

-- What the map holds for a user key.
pub record Version : Type 0 where
  pub seq : ℕ
  pub value : Bytes
  pub hides : Bool

-- A `BTreeMap` as its entries in the order of their keys.
abbrev pub TreeMap : Type 0
TreeMap = List (Bytes × Version)

unfoldable pub get : TreeMap → Bytes → Option Version
get [] u = none
get ((k, v) ∷ best) u = elim (compare_bytes u k) [ Ordering.eq ↦ some v | _ ↦ get best u ]

unfoldable pub insert : TreeMap → Bytes → Version → TreeMap
insert [] u v = (u, v) ∷ []
insert ((k, w) ∷ best) u v =
    let rest = insert best u v in
    elim (compare_bytes u k) [
      | Ordering.lt ↦ (u, v) ∷ (k, w) ∷ best
      | Ordering.eq ↦ (u, v) ∷ best
      | Ordering.gt ↦ (k, w) ∷ rest
    ]

-- `matches!(ty, ValueType::Deletion | ValueType::SingleDeletion)`
unfoldable pub hides_key : ValueType → Bool
hides_key deletion = true
hides_key single_deletion = true
hides_key _ = false

-- The match on `best.get(user_key)`.
unfoldable pub keep_newest : TreeMap → Bytes → Version → TreeMap
keep_newest best u v = elim (get best u) [
  | none ↦ insert best u v
  | some existing ↦ if leb v.seq existing.seq then best else insert best u v
]

unfoldable pub record_version : TreeMap → KeyValue → Option TreeMap
record_version best (key, val) = do
  (user_key, seq, ty) ← decode_suffix key
  some (keep_newest best user_key (record { seq = seq; value = val; hides = hides_key ty }))

unfoldable pub record_source : TreeMap → List KeyValue → Option TreeMap
record_source best [] = some best
record_source best (e ∷ source) = do best' ← record_version best e; record_source best' source

unfoldable pub record_sources : TreeMap → List (List KeyValue) → Option TreeMap
record_sources best [] = some best
record_sources best (source ∷ sources) = do
  best' ← record_source best source
  record_sources best' sources

-- The filter and the map at the end.
unfoldable pub survivors : TreeMap → List KeyValue
survivors [] = []
survivors ((u, v) ∷ best) = if v.hides then survivors best else (u, v.value) ∷ survivors best

unfoldable pub naive_compact : List (List KeyValue) → Option (List KeyValue)
naive_compact sources = do best ← record_sources [] sources; some (survivors best)
