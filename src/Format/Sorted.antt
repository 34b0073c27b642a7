-- ===== src/Format/Sorted.antt =====
-- The stable sort of the standard library, as crates/compactor/src/format/properties.rs sorts the
-- entries of a block by their names, and what is found in the result.
use compactor.Prelude.{
  ◌+◌, Bytes, List, [], ◌∷◌, Option, none, some, Ordering, if◌then◌else◌, ◌≡◌, refl, sym, ap, ◌∙◌,
  length, All, arith, true,
}
use compactor.Merge.Cmp.{compare_bytes}
use compactor.Merge.Cmp.Order.{compare_bytes_refl}
use compactor.Compaction.Loop.{bytes_eq}
use compactor.Compaction.Readers.{bytes_eq_lem}

module _ {A : Type 0} where
  unfoldable pub insert_by_name : Bytes × A → List (Bytes × A) → List (Bytes × A)
  insert_by_name e [] = e ∷ []
  insert_by_name e (x ∷ entries) =
      let rest = insert_by_name e entries in
      elim (compare_bytes x.0 e.0) [ Ordering.lt ↦ x ∷ rest | _ ↦ e ∷ x ∷ entries ]

  unfoldable pub sort_by_name : List (Bytes × A) → List (Bytes × A)
  sort_by_name [] = []
  sort_by_name (e ∷ entries) = insert_by_name e (sort_by_name entries)

  -- What stands first under a name.
  unfoldable pub first_under : List (Bytes × A) → Bytes → Option A
  first_under [] name = none
  first_under (e ∷ entries) name = if bytes_eq e.0 name then some e.1 else first_under entries name

  first_under-insert :
      (e : Bytes × A) (entries : List (Bytes × A)) (name : Bytes)
      → first_under (insert_by_name e entries) name ≡ first_under (e ∷ entries) name
  unfolding first_under insert_by_name
  first_under-insert e [] name = refl
  first_under-insert e (x ∷ entries) name =
      ground (arith, first_under-insert e entries name, differ)
    where
      differ :
          compare_bytes x.0 e.0 ≡ Ordering.lt
          → bytes_eq x.0 name ≡ true
          → bytes_eq e.0 name ≡ true
          → ⊥
      differ lt h k =
          let same : x.0 ≡ e.0 = bytes_eq_lem x.0 name h ∙ sym (bytes_eq_lem e.0 name k) in
          cc (compare_bytes_refl e.0, ap (λ (y : Bytes). compare_bytes y e.0) same, lt)

  -- A stable sort leaves the first one first.
  pub first_under-sort :
      (entries : List (Bytes × A)) (name : Bytes)
      → first_under (sort_by_name entries) name ≡ first_under entries name
  unfolding sort_by_name first_under
  first_under-sort [] name = refl
  first_under-sort (e ∷ entries) name =
      first_under-insert e (sort_by_name entries) name
      ∙ ground (arith, first_under-sort entries name)

  length-insert_by_name :
      (e : Bytes × A) (entries : List (Bytes × A))
      → length (insert_by_name e entries) ≡ length entries + 1
  unfolding insert_by_name
  length-insert_by_name e [] = omega arith
  length-insert_by_name e (x ∷ entries) = ground (arith, length-insert_by_name e entries)

  pub length-sort_by_name :
      (entries : List (Bytes × A)) → length (sort_by_name entries) ≡ length entries
  unfolding sort_by_name
  length-sort_by_name [] = refl
  length-sort_by_name (e ∷ entries) =
      omega (arith, length-insert_by_name e (sort_by_name entries), length-sort_by_name entries)

  module _ (P : Bytes × A → Type 0) where
    insert_by_name-All :
        (e : Bytes × A) (entries : List (Bytes × A))
        → P e
        → All P entries
        → All P (insert_by_name e entries)
          × (length (insert_by_name e entries) ≡ length entries + 1)
    unfolding insert_by_name
    insert_by_name-All e [] h t = ((h, tt), omega arith)
    insert_by_name-All e (x ∷ entries) h (t, ts) = ground (arith, insert_by_name-All e entries h ts)

    pub sort_by_name-All :
        (entries : List (Bytes × A))
        → All P entries
        → All P (sort_by_name entries) × (length (sort_by_name entries) ≡ length entries)
    unfolding sort_by_name
    sort_by_name-All [] h = (tt, refl)
    sort_by_name-All (e ∷ entries) (h, hs) =
        let (t, n) = sort_by_name-All entries hs in
        let (t', n') = insert_by_name-All e (sort_by_name entries) h t in (t', omega (arith, n, n'))
