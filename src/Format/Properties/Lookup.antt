-- ===== src/Format/Properties/Lookup.antt =====
-- What stands in a properties block under each name, as a reader of the file looks it up.
use compactor.Prelude.{
  ℕ, ◌^◌, ◌<◌, ◌≡◌, refl, sym, ◌∙◌, Bytes, List, [], ◌∷◌, ◌++◌, Option, some, none, arith, ◌>>=◌,
  append-nil, true, false,
}
use compactor.Format.Fixed.{to_le_bytes64, le_bytes}
use compactor.Format.Varint.{get_varint64}
use compactor.Format.Varint.Encoding.{varint, put_varint64-varint}
use compactor.Format.Varint.RoundTrip.{get_varint64-drop}
use compactor.Format.Sorted.{first_under}
use compactor.Format.Properties
use compactor.Format.Properties.{
  PropertiesInput, varint64_bytes, named, external_entries, property_entries,
  build_properties_block,
}
use compactor.Compaction.Loop.{bytes_eq}

-- The number that is read at the front of the value under a name.
abbrev pub number_under : List (Bytes × Bytes) → Bytes → Option ℕ
number_under es name = do value ← first_under es name; (n, _) ← get_varint64 value 0; some n

-- A name that is empty is not written.
abbrev pub unless_empty : Bytes → Option Bytes
unless_empty [] = none
unless_empty (b ∷ bs) = some (b ∷ bs)

-- The little-endian number 2, where the file has a global sequence number.
abbrev pub version_of : Option ℕ → Option Bytes
version_of none = none
version_of (some seqno) = some (2 ∷ 0 ∷ 0 ∷ 0 ∷ [])

abbrev pub seqno_of : Option ℕ → Option Bytes
seqno_of none = none
seqno_of (some seqno) = some (to_le_bytes64 seqno)

abbrev pub present : {A : Type 0} → Option A → ℕ
present none = 0
present (some a) = 1

-- The numbers of an input are u64.
abbrev pub AreU64 : PropertiesInput → Type 0
AreU64 props =
    (props.num_entries < 2 ^ 64)
    × (props.raw_key_size < 2 ^ 64)
    × (props.raw_value_size < 2 ^ 64)
    × (props.data_size < 2 ^ 64)
    × (props.index_size < 2 ^ 64)
    × (props.column_family_id < 2 ^ 64)

abbrev pub HasNumbers : PropertiesInput → List (Bytes × Bytes) → Type 0
HasNumbers props es =
    (number_under es Properties.key_num_entries ≡ some props.num_entries)
    × (number_under es Properties.key_raw_key_size ≡ some props.raw_key_size)
    × (number_under es Properties.key_raw_value_size ≡ some props.raw_value_size)
    × (number_under es Properties.key_data_size ≡ some props.data_size)
    × (number_under es Properties.key_index_size ≡ some props.index_size)
    × (number_under es Properties.key_index_key_is_user_key ≡ some 0)
    × (number_under es Properties.key_index_value_is_delta_encoded ≡ some 1)
    × (number_under es Properties.key_column_family_id ≡ some props.column_family_id)

abbrev pub HasTexts : PropertiesInput → List (Bytes × Bytes) → Type 0
HasTexts props es =
    (first_under es Properties.key_index_type ≡ some (0 ∷ 0 ∷ 0 ∷ 0 ∷ []))
    × (first_under es Properties.key_comparator ≡ unless_empty props.comparator_name)
    × (first_under es Properties.key_column_family_name ≡ unless_empty props.column_family_name)
    × (first_under es Properties.key_external_version ≡ version_of props.external_sst_global_seqno)
    × (first_under es Properties.key_external_global_seqno
        ≡ seqno_of props.external_sst_global_seqno)

pub number_under-varint :
    (es : List (Bytes × Bytes)) (name : Bytes) (n : ℕ)
    → first_under es name ≡ some (varint64_bytes n)
    → n < 2 ^ 64
    → number_under es name ≡ some n
unfolding varint64_bytes
number_under-varint es name n e h =
    rw
      (
        e,
        put_varint64-varint [] n,
        get_varint64-drop (varint n) 0 n [] (sym (append-nil (varint n))) h,
      )
      refl

-- Under the names of the numbers stand their varints, whichever of the others are written.
abbrev pub Numbers : PropertiesInput → List (Bytes × Bytes) → Type 0
Numbers props es =
    (first_under es Properties.key_num_entries ≡ some (varint64_bytes props.num_entries))
    × (first_under es Properties.key_raw_key_size ≡ some (varint64_bytes props.raw_key_size))
    × (first_under es Properties.key_raw_value_size ≡ some (varint64_bytes props.raw_value_size))
    × (first_under es Properties.key_data_size ≡ some (varint64_bytes props.data_size))
    × (first_under es Properties.key_index_size ≡ some (varint64_bytes props.index_size))
    × (first_under es Properties.key_index_key_is_user_key ≡ some (varint64_bytes 0))
    × (first_under es Properties.key_index_value_is_delta_encoded ≡ some (varint64_bytes 1))
    × (first_under es Properties.key_column_family_id
        ≡ some (varint64_bytes props.column_family_id))

after_named :
    (key name other : Bytes) (es : List (Bytes × Bytes))
    → bytes_eq key other ≡ false
    → first_under (named key name ++ es) other ≡ first_under es other
unfolding first_under named
after_named key [] other es h = refl
after_named key (b ∷ bs) other es h = ground (arith, h)

at_named :
    (key name : Bytes) (es : List (Bytes × Bytes))
    → bytes_eq key key ≡ true
    → first_under es key ≡ none
    → first_under (named key name ++ es) key ≡ unless_empty name
unfolding first_under named
at_named key [] es h e = e
at_named key (b ∷ bs) es h e = ground (arith, h)

pub property_entries-Numbers : (props : PropertiesInput) → Numbers props (property_entries props)
unfolding property_entries first_under bytes_eq named external_entries
property_entries-Numbers props = (
  refl,
  refl,
  refl,
  refl,
  refl,
  refl,
  refl,
  after_named Properties.key_comparator props.comparator_name Properties.key_column_family_id _ refl
      ∙ refl,
)

external_none :
    (seqno : Option ℕ) (name : Bytes)
    → bytes_eq Properties.key_external_version name ≡ false
    → bytes_eq Properties.key_external_global_seqno name ≡ false
    → first_under (external_entries seqno) name ≡ none
unfolding first_under external_entries
external_none none name h k = refl
external_none (some q) name h k = rw (first_under, h, k) refl

external_version :
    (seqno : Option ℕ)
    → first_under (external_entries seqno) Properties.key_external_version ≡ version_of seqno
unfolding first_under external_entries bytes_eq le_bytes
external_version none = refl
external_version (some q) = refl

external_seqno :
    (seqno : Option ℕ)
    → first_under (external_entries seqno) Properties.key_external_global_seqno ≡ seqno_of seqno
unfolding first_under external_entries bytes_eq
external_seqno none = refl
external_seqno (some q) = refl

pub property_entries-HasTexts : (props : PropertiesInput) → HasTexts props (property_entries props)
unfolding property_entries first_under bytes_eq le_bytes
property_entries-HasTexts props =
    let c = Properties.key_comparator in
    let name = props.comparator_name in
    let cf = props.column_family_name in
    let q = props.external_sst_global_seqno in
    let f = Properties.key_column_family_name in
    (
      refl,
      at_named c name _ refl (after_named f cf c _ refl ∙ external_none q c refl refl),
      after_named c name f _ refl ∙ at_named f cf _ refl (external_none q f refl refl),
      after_named c name Properties.key_external_version _ refl
          ∙ after_named f cf Properties.key_external_version _ refl
          ∙ external_version q,
      after_named c name Properties.key_external_global_seqno _ refl
          ∙ after_named f cf Properties.key_external_global_seqno _ refl
          ∙ external_seqno q,
    )
