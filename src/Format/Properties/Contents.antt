-- ===== src/Format/Properties/Contents.antt =====
-- The whole contents of a properties block, whichever of the properties are written.
use compactor.Prelude.{
  ℕ, ◌+◌, ◌≡◌, refl, ◌∙◌, Bytes, List, [], ◌∷◌, ◌++◌, Option, some, none, length, length-append,
  arith,
}
use compactor.Format.Block.Holds.{Holds}
use compactor.Format.Sorted.{sort_by_name, first_under-sort, length-sort_by_name}
use compactor.Format.Properties
use compactor.Format.Properties.{
  PropertiesInput, varint64_bytes, named, external_entries, property_entries,
  build_properties_block,
}
use compactor.Format.Properties.RoundTrip.{IsNamed, build_properties_block-Holds}
use compactor.Oracle.TreeMap.{Ascending}
use compactor.Format.Properties.Lookup.{
  unless_empty, version_of, seqno_of, present, AreU64, HasNumbers, HasTexts, Numbers,
  number_under-varint, property_entries-Numbers, property_entries-HasTexts,
}
use compactor.Format.Properties.Order.{property_entries-Ascending}

length-named : (key name : Bytes) → length (named key name) ≡ present (unless_empty name)
unfolding named
length-named key [] = refl
length-named key (b ∷ bs) = ground arith

length-external_entries :
    (seqno : Option ℕ)
    → length (external_entries seqno) ≡ present (version_of seqno) + present (seqno_of seqno)
unfolding external_entries
length-external_entries none = refl
length-external_entries (some q) = refl

-- Nothing else stands there.
abbrev pub count_of : PropertiesInput → ℕ
count_of props =
    9
    + present (unless_empty props.comparator_name)
    + present (unless_empty props.column_family_name)
    + present (version_of props.external_sst_global_seqno)
    + present (seqno_of props.external_sst_global_seqno)

length-property_entries :
    (props : PropertiesInput) → length (property_entries props) ≡ count_of props
unfolding property_entries
length-property_entries props =
    let c = named Properties.key_comparator props.comparator_name in
    let f = named Properties.key_column_family_name props.column_family_name in
    let x = external_entries props.external_sst_global_seqno in
    let id : Bytes × Bytes =
      (Properties.key_column_family_id, varint64_bytes props.column_family_id) in
    omega (
      arith,
      length-named Properties.key_comparator props.comparator_name,
      length-named Properties.key_column_family_name props.column_family_name,
      length-external_entries props.external_sst_global_seqno,
      length-append c (id ∷ (f ++ x)),
      length-append f x,
    )

HasNumbers-Numbers :
    (props : PropertiesInput) (es : List (Bytes × Bytes))
    → AreU64 props
    → Numbers props es
    → HasNumbers props es
HasNumbers-Numbers props es (a, b, c, d, e, f) (ha, hb, hc, hd, he, h0, h1, hf) =
    let n = number_under-varint es in
    (
      n _ _ ha a,
      n _ _ hb b,
      n _ _ hc c,
      n _ _ hd d,
      n _ _ he e,
      n _ _ h0 (omega arith),
      n _ _ h1 (omega arith),
      n _ _ hf f,
    )

-- The properties block builds where the names of comparator and column family are shorter than 2 GiB
-- together and the numbers are u64: no assertion fails. It parses, and a walk over it calls the
-- callback on entries whose names strictly ascend, and ends well. Under the name of each number of
-- the input stands a value from which `get_varint64` reads it; the index has the type of a binary
-- search, its keys are not user keys, and its values are delta-encoded; the names of comparator and
-- column family stand there where they are not empty, and version 2 and the global sequence number
-- where there is one. There are no other entries.
pub build_properties_block-contents :
    (props : PropertiesInput)
    → IsNamed props
    → AreU64 props
    → (raw : Bytes) × (es : List (Bytes × Bytes)) × (build_properties_block props ≡ some raw)
      × Holds raw es
      × Ascending es
      × HasNumbers props es
      × HasTexts props es
      × (length es ≡ count_of props)
build_properties_block-contents props named small =
    let (raw, built, holds, _) = build_properties_block-Holds props named in
    let pushed = property_entries props in
    let es = sort_by_name pushed in
    let sorted = first_under-sort pushed in
    let (a, b, c, d, e, f, g, h) = property_entries-Numbers props in
    let (t, u, v, w, x) = property_entries-HasTexts props in
    let numbers : Numbers props es = (
      sorted _ ∙ a,
      sorted _ ∙ b,
      sorted _ ∙ c,
      sorted _ ∙ d,
      sorted _ ∙ e,
      sorted _ ∙ f,
      sorted _ ∙ g,
      sorted _ ∙ h,
    ) in
    (
      raw,
      es,
      built,
      holds,
      property_entries-Ascending props,
      HasNumbers-Numbers props es small numbers,
      (sorted _ ∙ t, sorted _ ∙ u, sorted _ ∙ v, sorted _ ∙ w, sorted _ ∙ x),
      length-sort_by_name pushed ∙ length-property_entries props,
    )
