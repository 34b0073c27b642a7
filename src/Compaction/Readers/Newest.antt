-- ===== src/Compaction/Readers/Newest.antt =====
-- In merge order the first visible version is the newest one.
use compactor.Prelude.{
  ℕ, ◌-◌, ◌/◌, ◌^◌, ◌≤◌, ltb, true, Bytes, List, [], ◌∷◌, Option, none, some, if◌then◌else◌, ◌≡◌,
  refl, ap, sym, ◌∙◌, ◌⊎◌, inl, inr, arith, All, compare, Ordering, drop, length, Bool-cases,
  le→ltb,
}
use compactor.Format.Error.{ok, err, Result-cases}
use compactor.Format.Fixed.{from_le_bytes}
use compactor.Format.InternalKey.{InternalKey, split}
use compactor.Merge.Cmp
use compactor.Merge.Cmp.{compare_internal_keys}
use compactor.Merge.Cmp.Order.{compare_internal_keys_same}
use compactor.Compaction.Loop.{Entry}
use compactor.Compaction.Readers.{seen_by, visible, seen_by_err, seen_user, Precedes, IsMerged}

unfoldable pub sequence_of : Entry → ℕ
sequence_of e = elim (split e.0) [ err _ ↦ 0 | ok ik ↦ ik.sequence ]

unfoldable pub newer : Entry → Option Entry → Option Entry
newer e none = some e
newer e (some f) = if ltb (sequence_of e) (sequence_of f) then some f else some e

-- The version of `u` with the highest sequence number up to `r`, in a list in any order; of equal
-- ones the first.
unfoldable pub newest : Bytes → ℕ → List Entry → Option Entry
newest u r [] = none
newest u r (e ∷ es) = if seen_by u r e then newer e (newest u r es) else newest u r es

pub suffix : Bytes → Bytes
suffix k = drop (length k - 8) k

-- The two splits of a key agree.
pub splits_agree :
    (k : Bytes) (ik : InternalKey)
    → split k ≡ ok ik
    → (Cmp.split k ≡ some (ik.user_key, suffix k))
      × (ik.sequence ≡ from_le_bytes (suffix k) / 2 ^ 8)
unfolding split Cmp.split suffix
splits_agree k ik p = ground arith

le_of_compare :
    (x y : ℕ) → (compare x y ≡ Ordering.lt) ⊎ (compare x y ≡ Ordering.eq) → x / 2 ^ 8 ≤ y / 2 ^ 8
le_of_compare x y h = ground arith

Precedes-sequence :
    (a b : Entry) (ia ib : InternalKey)
    → split a.0 ≡ ok ia
    → split b.0 ≡ ok ib
    → ia.user_key ≡ ib.user_key
    → Precedes a b
    → ib.sequence ≤ ia.sequence
Precedes-sequence a b ia ib pa pb same h =
    let (ca, na) = splits_agree a.0 ia pa in
    let (cb, nb) = splits_agree b.0 ib pb in
    let e =
      compare_internal_keys_same a.0 b.0 ia.user_key (suffix a.0) (suffix b.0) ca
        (cb ∙ ap (λ (u : Bytes). some (u, suffix b.0)) (sym same)) in
    ground
      (arith, na, nb, e, le_of_compare (from_le_bytes (suffix b.0)) (from_le_bytes (suffix a.0)))

-- `Q` of the value, if there is one.
abbrev pub OnSome : (Entry → Type 0) → Option Entry → Type 0
OnSome Q none = Unit
OnSome Q (some f) = Q f

OnSome-map :
    {Q R : Entry → Type 0} (o : Option Entry) → ((f : Entry) → Q f → R f) → OnSome Q o → OnSome R o
OnSome-map none g h = tt
OnSome-map (some f) g h = g f h

newer-OnSome :
    (Q : Entry → Type 0) (e : Entry) (o : Option Entry) → Q e → OnSome Q o → OnSome Q (newer e o)
unfolding newer
newer-OnSome Q e none h k = h
newer-OnSome Q e (some f) h k = elim (Bool-cases (ltb (sequence_of e) (sequence_of f))) [
  | inl t ↦ rw t k
  | inr t ↦ rw t h
]

module _ (P : Entry → Type 0) (u : Bytes) (r : ℕ) where
  pub newest-All :
      (es : List Entry) → All P es → OnSome (λ f. P f × (seen_by u r f ≡ true)) (newest u r es)
  unfolding newest
  newest-All [] h = tt
  newest-All (g ∷ es) (hg, hs) = elim (Bool-cases (seen_by u r g)) [
    | inl t ↦ rw t (
        newer-OnSome (λ f. P f × (seen_by u r f ≡ true)) g (newest u r es) (hg, t)
          (newest-All es hs))
    | inr t ↦ rw t (newest-All es hs)
  ]

-- Two versions of one key that a reader may see, in merge order: the second is not newer.
Precedes-seen :
    (u : Bytes) (r : ℕ) (a b : Entry)
    → Precedes a b
    → seen_by u r a ≡ true
    → seen_by u r b ≡ true
    → sequence_of b ≤ sequence_of a
unfolding sequence_of
Precedes-seen u r a b h sa sb = elim (Result-cases (split a.0)) [
  | inr (x, p) ↦ cc (seen_by_err u r a p)
  | inl (ia, p) ↦ elim (Result-cases (split b.0)) [
    | inr (y, q) ↦ cc (seen_by_err u r b q)
    | inl (ib, q) ↦
        rw (p, q, sequence_of)
          (Precedes-sequence a b ia ib p q (seen_user u r a ia p sa ∙ sym (seen_user u r b ib q sb))
            h)
  ]
]

newer_first :
    (e : Entry) (o : Option Entry)
    → OnSome (λ f. sequence_of f ≤ sequence_of e) o
    → newer e o ≡ some e
unfolding newer
newer_first e none h = refl
newer_first e (some f) h = rw (le→ltb _ _ h)

-- In merge order the first version that a reader may see is the newest that it may see.
pub visible-newest :
    (u : Bytes) (r : ℕ) (es : List Entry) → IsMerged es → visible u r es ≡ newest u r es
unfolding newest visible
visible-newest u r [] h = refl
visible-newest u r (e ∷ es) (h, hs) = elim (Bool-cases (seen_by u r e)) [
  | inl t ↦ rw t (sym (newer_first e (newest u r es) (older t)))
  | inr t ↦ rw t (visible-newest u r es hs)
]
  where
    older : seen_by u r e ≡ true → OnSome (λ f. sequence_of f ≤ sequence_of e) (newest u r es)
    older t =
        OnSome-map (newest u r es) (λ f (p, seen). Precedes-seen u r e f p t seen)
          (newest-All (Precedes e) u r es h)
