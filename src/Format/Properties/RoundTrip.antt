-- ===== src/Format/Properties/RoundTrip.antt =====
-- The properties block holds the properties, in the order of their names.
use compactor.Prelude.{
  ℕ, ◌+◌, ◌^◌, ◌≤◌, ◌<◌, ◌≡◌, refl, ap, ◌∙◌, Bytes, List, [], ◌∷◌, ◌++◌, Option, some, none, length,
  take, All, arith,
}
use compactor.Format.Fixed.{length-le_bytes}
use compactor.Format.Varint.Encoding.{length-varint, put_varint64-varint}
use compactor.Format.BlockBuilder.{finish}
use compactor.Format.BlockBuilder.Encoding.{Fits}
use compactor.Format.Block.Holds.{Holds, room, add_all-IsFilled}
use compactor.Format.Block.RoundTrip.{new-fresh}
use compactor.Format.Sorted.{sort_by_name, insert_by_name, sort_by_name-All}
use compactor.Format.Properties.{
  PropertiesInput, varint64_bytes, named, external_entries, property_entries, key_comparator,
  key_column_family_id, key_column_family_name, build_properties_block, usize_max,
}

varint64_bytes-le : (v : ℕ) → length (varint64_bytes v) ≤ 10
unfolding varint64_bytes
varint64_bytes-le v = omega (arith, ap length (put_varint64-varint [] v), length-varint v)

-- The names of an input are shorter than 4 GiB.
abbrev pub IsNamed : PropertiesInput → Type 0
IsNamed props = length props.comparator_name + length props.column_family_name < 2 ^ 31

-- At most `n` entries that fit, with room for `r` bytes.
abbrev pub IsSmall : ℕ → ℕ → List (Bytes × Bytes) → Type 0
IsSmall n r es = All Fits es × (length es ≤ n) × (room es ≤ r)

IsSmall-cons :
    (n r : ℕ) (key value : Bytes) (es : List (Bytes × Bytes)) (size : ℕ)
    → length key ≤ 100
    → length value ≤ size
    → size < 2 ^ 32
    → IsSmall n r es
    → IsSmall (n + 1) (size + 134 + r) ((key, value) ∷ es)
IsSmall-cons n r key value es size k v m (f, l, t) =
    (((omega arith, omega arith), f), omega arith, omega arith)

pub IsSmall-append :
    (n r n' r' : ℕ) (es es' : List (Bytes × Bytes))
    → IsSmall n r es
    → IsSmall n' r' es'
    → IsSmall (n + n') (r + r') (es ++ es')
IsSmall-append n r n' r' [] es' (f, l, t) (f', l', t') = (f', omega arith, omega arith)
IsSmall-append n r n' r' ((k, v) ∷ es) es' ((f, fs), l, t) s' =
    let (fs', l', t') =
      IsSmall-append (length es) (room es) n' r' es es' (fs, omega arith, omega arith) s' in
    ((f, fs'), omega arith, omega arith)

named-IsSmall :
    (key name : Bytes)
    → length key ≤ 100
    → length name < 2 ^ 32
    → IsSmall 1 (length name + 134) (named key name)
unfolding named
named-IsSmall key name k h = ground arith

external_entries-IsSmall : (seqno : Option ℕ) → IsSmall 2 300 (external_entries seqno)
unfolding external_entries
external_entries-IsSmall none = omega arith
external_entries-IsSmall (some v) = omega (arith, length-le_bytes 4 2, length-le_bytes 8 v)

-- The properties that are always there, up to the comparator.
abbrev fixed_entries : PropertiesInput → List (Bytes × Bytes)
fixed_entries props = take 8 (property_entries props)

fixed_entries-IsSmall : (props : PropertiesInput) → IsSmall 8 600 (fixed_entries props)
unfolding property_entries
fixed_entries-IsSmall props =
    let size = varint64_bytes-le in
    omega (
      arith,
      length-le_bytes 4 0,
      size props.num_entries,
      size props.raw_key_size,
      size props.raw_value_size,
      size props.data_size,
      size props.index_size,
      size 0,
      size 1,
    )

property_entries-IsSmall :
    (props : PropertiesInput)
    → IsNamed props
    → IsSmall 13
        (length props.comparator_name + length props.column_family_name + 2000)
        (property_entries props)
unfolding property_entries
property_entries-IsSmall props h =
    let name = length props.comparator_name in
    let cf = length props.column_family_name in
    let size = varint64_bytes-le in
    let names = named key_column_family_name props.column_family_name in
    let external = external_entries props.external_sst_global_seqno in
    let last =
      IsSmall-append 1 (cf + 134) 2 300 names external
        (named-IsSmall key_column_family_name props.column_family_name (omega arith) (omega arith))
        (external_entries-IsSmall props.external_sst_global_seqno) in
    let id = varint64_bytes props.column_family_id in
    let behind =
      IsSmall-append 1 (name + 134) 4 (10 + 134 + (cf + 134 + 300))
        (named key_comparator props.comparator_name)
        ((key_column_family_id, id) ∷ (names ++ external))
        (named-IsSmall key_comparator props.comparator_name (omega arith) (omega arith))
        (IsSmall-cons 3 (cf + 134 + 300) key_column_family_id id (names ++ external) 10
          (omega arith) (size props.column_family_id) (omega arith) last) in
    let (f, l, t) =
      IsSmall-append 8 600 5 (name + 134 + (10 + 134 + (cf + 134 + 300))) (fixed_entries props)
        (named key_comparator props.comparator_name
          ++ ((key_column_family_id, id) ∷ (names ++ external)))
        (fixed_entries-IsSmall props) behind in
    (f, omega arith, omega arith)

room-insert :
    (e : Bytes × Bytes) (es : List (Bytes × Bytes)) → room (insert_by_name e es) ≡ room (e ∷ es)
unfolding insert_by_name
room-insert e [] = refl
room-insert e (x ∷ es) = ground (arith, room-insert e es)

pub room-sort : (es : List (Bytes × Bytes)) → room (sort_by_name es) ≡ room es
unfolding sort_by_name
room-sort [] = refl
room-sort (e ∷ es) = room-insert e (sort_by_name es) ∙ omega (arith, room-sort es)

-- The properties block builds where the names of comparator and column family are shorter than 2 GiB:
-- no assertion fails. It parses, and a walk over it calls the callback on the properties in the
-- order of their names, and ends well.
pub build_properties_block-Holds :
    (props : PropertiesInput)
    → IsNamed props
    → (raw : Bytes) × (build_properties_block props ≡ some raw)
      × Holds raw (sort_by_name (property_entries props))
      × (length raw ≤ length props.comparator_name + length props.column_family_name + 2008)
unfolding build_properties_block
build_properties_block-Holds props h =
    let (fits, few, r) = property_entries-IsSmall props h in
    let (fits', n) = sort_by_name-All Fits (property_entries props) fits in
    let (b, t) =
      add_all-IsFilled usize_max (sort_by_name (property_entries props)) (omega arith) fits'
        (omega (arith, n)) in
    (
      finish b,
      rw (new-fresh usize_max (omega arith), t.taken) refl,
      t.held,
      omega (arith, t.bounded, room-sort (property_entries props)),
    )
