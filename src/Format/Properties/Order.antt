-- ===== src/Format/Properties/Order.antt =====
-- The order of the names in a properties block.
use compactor.Prelude.{
  ℕ, ◌≡◌, refl, Bytes, List, [], ◌∷◌, ◌++◌, Option, some, none, arith, true, false, Bool, ◌⊎◌, inl,
  inr, Ordering, Ordering-cases,
}
use compactor.Format.Fixed.{to_le_bytes32}
use compactor.Format.Sorted.{sort_by_name, insert_by_name}
use compactor.Format.Properties
use compactor.Format.Properties.{
  PropertiesInput, varint64_bytes, named, external_entries, property_entries,
  build_properties_block,
}
use compactor.Oracle.TreeMap.{Ascending, AllAbove-trans}
use compactor.Merge.Cmp.{compare_bytes}

named-cases : (key name : Bytes) → (named key name ≡ []) ⊎ (named key name ≡ (key, name) ∷ [])
unfolding named
named-cases key [] = inl refl
named-cases key (b ∷ bs) = inr (ground arith)

external_entries-cases :
    (seqno : Option ℕ)
    → (external_entries seqno ≡ [])
      ⊎ ((v : Bytes) × (w : Bytes) × (external_entries seqno
            ≡ (Properties.key_external_version, v)
              ∷ (Properties.key_external_global_seqno, w)
              ∷ []))
unfolding external_entries
external_entries-cases none = inl refl
external_entries-cases (some q) = inr (_, _, refl)

-- Each name is below the next one.
unfoldable neighbours_ascend : List (Bytes × Bytes) → Bool
neighbours_ascend [] = true
neighbours_ascend (e ∷ []) = true
neighbours_ascend (e ∷ e' ∷ es) =
    let rest = neighbours_ascend (e' ∷ es) in
    elim (compare_bytes e.0 e'.0) [ Ordering.lt ↦ rest | _ ↦ false ]

neighbours_ascend-Ascending :
    (es : List (Bytes × Bytes)) → neighbours_ascend es ≡ true → Ascending es
unfolding neighbours_ascend
neighbours_ascend-Ascending [] h = tt
neighbours_ascend-Ascending (e ∷ []) h = (tt, tt)
neighbours_ascend-Ascending (e ∷ e' ∷ es) h = elim (Ordering-cases (compare_bytes e.0 e'.0)) [
  | inl lt ↦
      let (above, ascends) =
        neighbours_ascend-Ascending (e' ∷ es) (rw (lt, neighbours_ascend) at h) in
      ((lt, AllAbove-trans e.0 e'.0 es lt above), (above, ascends))
  | inr (inl eq) ↦ cc (rw (eq, neighbours_ascend) at h)
  | inr (inr gt) ↦ cc (rw (gt, neighbours_ascend) at h)
]

module _ (props : PropertiesInput) where
  abbrev entries_with : (name cf external : List (Bytes × Bytes)) → List (Bytes × Bytes)
  entries_with name cf external =
      (Properties.key_index_type, to_le_bytes32 Properties.index_type_binary_search)
      ∷ (Properties.key_num_entries, varint64_bytes props.num_entries)
      ∷ (Properties.key_raw_key_size, varint64_bytes props.raw_key_size)
      ∷ (Properties.key_raw_value_size, varint64_bytes props.raw_value_size)
      ∷ (Properties.key_data_size, varint64_bytes props.data_size)
      ∷ (Properties.key_index_size, varint64_bytes props.index_size)
      ∷ (Properties.key_index_key_is_user_key, varint64_bytes 0)
      ∷ (Properties.key_index_value_is_delta_encoded, varint64_bytes 1)
      ∷ (name
          ++ ((Properties.key_column_family_id, varint64_bytes props.column_family_id)
              ∷ (cf ++ external)))

  abbrev ascends_with : (name cf external : List (Bytes × Bytes)) → Bool
  ascends_with name cf external = neighbours_ascend (sort_by_name (entries_with name cf external))

  abbrev comparator : List (Bytes × Bytes)
  comparator = (Properties.key_comparator, props.comparator_name) ∷ []

  abbrev cf : List (Bytes × Bytes)
  cf = (Properties.key_column_family_name, props.column_family_name) ∷ []

  -- Whichever of the others are written, all names are different.
  module _ (v w : Bytes) where
    abbrev external : List (Bytes × Bytes)
    external = (Properties.key_external_version, v) ∷ (Properties.key_external_global_seqno, w) ∷ []

    without_comparator :
        (ascends_with [] [] [] ≡ true)
        × (ascends_with [] [] external ≡ true)
        × (ascends_with [] cf [] ≡ true)
        × (ascends_with [] cf external ≡ true)
    unfolding neighbours_ascend sort_by_name insert_by_name compare_bytes
    without_comparator = (refl, refl, refl, refl)

    with_comparator :
        (ascends_with comparator [] [] ≡ true)
        × (ascends_with comparator [] external ≡ true)
        × (ascends_with comparator cf [] ≡ true)
        × (ascends_with comparator cf external ≡ true)
    unfolding neighbours_ascend sort_by_name insert_by_name compare_bytes
    with_comparator = (refl, refl, refl, refl)

  property_entries_ascend :
      (added : List (Bytes × Bytes))
      → external_entries props.external_sst_global_seqno ≡ added
      → ascends_with [] [] added ≡ true
      → ascends_with [] cf added ≡ true
      → ascends_with comparator [] added ≡ true
      → ascends_with comparator cf added ≡ true
      → Ascending (sort_by_name (property_entries props))
  unfolding property_entries
  property_entries_ascend added x a b c d =
      let ascends = neighbours_ascend-Ascending in
      let names = named-cases Properties.key_column_family_name props.column_family_name in
      elim (named-cases Properties.key_comparator props.comparator_name) [
        | inl n ↦ elim names [
          | inl f ↦ rw (x, n, f) (ascends _ a)
          | inr f ↦ rw (x, n, f) (ascends _ b)
        ]
        | inr n ↦ elim names [
          | inl f ↦ rw (x, n, f) (ascends _ c)
          | inr f ↦ rw (x, n, f) (ascends _ d)
        ]
      ]

  pub property_entries-Ascending : Ascending (sort_by_name (property_entries props))
  property_entries-Ascending = elim (external_entries-cases props.external_sst_global_seqno) [
    | inl x ↦
        let (a, _, b, _) = without_comparator [] [] in
        let (c, _, d, _) = with_comparator [] [] in property_entries_ascend [] x a b c d
    | inr (v, w, x) ↦
        let (_, a, _, b) = without_comparator v w in
        let (_, c, _, d) = with_comparator v w in property_entries_ascend (external v w) x a b c d
  ]
