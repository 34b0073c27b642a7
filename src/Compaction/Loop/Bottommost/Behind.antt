-- ===== src/Compaction/Loop/Bottommost/Behind.antt =====
-- What `BottommostStrategy` leaves of a key behind its first version: nothing.
use compactor.Prelude.{
  ℕ, true, false, Bytes, List, [], ◌∷◌, ◌≡◌, refl, sym, ap, ◌∙◌, inl, inr, arith, Bool-cases, All,
  none, Ordering, ◌⊎◌,
}
use compactor.Format.Error.{ok, Result-cases}
use compactor.Format.InternalKey.{InternalKey, split}
use compactor.Merge.Cmp.{compare_bytes}
use compactor.Merge.Cmp.Order.{
  compare_internal_keys_users, compare_bytes_trans, compare_bytes_refl, eq_of_compare_bytes,
}
use compactor.Compaction.Strategy.{KeepDecision, drop, bottommost, decide_bottommost}
use compactor.Compaction.Loop.{Entry, bytes_eq}
use compactor.Compaction.Loop.Emit.{emit, emit_nil, emit_ok, emit_err, is_first, keep_if}
use compactor.Compaction.Loop.Order.{emit-All}
use compactor.Compaction.Readers.{
  bytes_eq_lem, bytes_eq_refl, seen_by, visible, seen_by_ok, seen_by_err, IsMerged, Precedes,
}
use compactor.Compaction.Readers.Newest.{splits_agree, suffix}

-- `u` is below the user key of `e`, if that splits.
abbrev Above : Bytes → Entry → Type 0
Above u e = (ik : InternalKey) → split e.0 ≡ ok ik → compare_bytes u ik.user_key ≡ Ordering.lt

pub Precedes-users :
    (a b : Entry) (ia ib : InternalKey)
    → split a.0 ≡ ok ia
    → split b.0 ≡ ok ib
    → Precedes a b
    → (compare_bytes ia.user_key ib.user_key ≡ Ordering.lt)
      ⊎ (compare_bytes ia.user_key ib.user_key ≡ Ordering.eq)
Precedes-users a b ia ib p q h =
    compare_internal_keys_users a.0 b.0 ia.user_key ib.user_key (suffix a.0) (suffix b.0)
      (splits_agree a.0 ia p).0 (splits_agree b.0 ib q).0 h

-- Above an entry that is above `u` all is above `u`.
Above-of_Precedes :
    (u : Bytes) (a b : Entry) (ia : InternalKey)
    → split a.0 ≡ ok ia
    → compare_bytes u ia.user_key ≡ Ordering.lt
    → Precedes a b
    → Above u b
Above-of_Precedes u a b ia p lt h ib q = elim (Precedes-users a b ia ib p q h) [
  | inl e ↦ compare_bytes_trans u ia.user_key ib.user_key lt e
  | inr e ↦ ap (compare_bytes u) (sym (eq_of_compare_bytes ia.user_key ib.user_key e)) ∙ lt
]

Above-unseen : (u : Bytes) (r : ℕ) (e : Entry) → Above u e → seen_by u r e ≡ false
Above-unseen u r e h = elim (Result-cases (split e.0)) [
  | inr (x, p) ↦ seen_by_err u r e p
  | inl (ik, p) ↦ elim (Bool-cases (bytes_eq ik.user_key u)) [
    | inr other ↦ seen_by_ok u r e ik p ∙ rw other
    | inl same ↦
        cc (compare_bytes_refl u, h ik p, ap (compare_bytes u) (bytes_eq_lem ik.user_key u same))
  ]
]

visible-none :
    (u : Bytes) (r : ℕ) (es : List Entry)
    → All (λ e. seen_by u r e ≡ false) es
    → visible u r es ≡ none
unfolding visible
visible-none u r [] h = refl
visible-none u r (e ∷ es) (h, hs) = rw h (visible-none u r es hs)

All-map : {P Q : Entry → Type 0} (es : List Entry) → ((e : Entry) → P e → Q e) → All P es → All Q es
All-map [] f h = tt
All-map (e ∷ es) f (h, hs) = (f e h, All-map es f hs)

-- A version behind the first is dropped.
pub drops_again :
    (u last : Bytes) (ik : InternalKey)
    → last ≡ u
    → bytes_eq ik.user_key u ≡ true
    → (decide_bottommost tt ik (is_first true last ik)).1 ≡ drop
unfolding decide_bottommost
drops_again u last ik e same =
    ground (arith, ap (bytes_eq last) (bytes_eq_lem ik.user_key u same ∙ sym e), bytes_eq_refl last)

module _ (u : Bytes) (r : ℕ) (e₀ : Entry) (i₀ : InternalKey) (p₀ : split e₀.0 ≡ ok i₀)
    (same₀ : i₀.user_key ≡ u) where
  -- Behind a version of `u`, another key is above it.
  next_key_above :
      (e : Entry) (ik : InternalKey)
      → split e.0 ≡ ok ik
      → bytes_eq ik.user_key u ≡ false
      → Precedes e₀ e
      → compare_bytes u ik.user_key ≡ Ordering.lt
  next_key_above e ik p other h = elim (Precedes-users e₀ e i₀ ik p₀ p h) [
    | inl lt ↦ rw same₀ at lt
    | inr eq ↦ cc (
      other,
      bytes_eq_refl u,
      ap (λ (w : Bytes). bytes_eq w u) (eq_of_compare_bytes i₀.user_key ik.user_key eq),
      ap (λ (w : Bytes). bytes_eq w u) same₀,
    )
  ]

  -- After the first version of `u` the loop emits no other one.
  pub gone :
      (es : List Entry) (last : Bytes)
      → last ≡ u
      → IsMerged es
      → All (Precedes e₀) es
      → visible u r (emit bottommost tt true last es) ≡ none
  unfolding visible
  gone [] last same m h = ap (visible u r) (emit_nil bottommost tt true last)
  gone (e ∷ es) last same (m, ms) (h, hs) = elim (Result-cases (split e.0)) [
    | inr (x, p) ↦
        ap (visible u r) (emit_err bottommost tt true last e es p) ∙ gone es last same ms hs
    | inl (ik, p) ↦ elim (Bool-cases (bytes_eq ik.user_key u)) [
      | inl again ↦
          let rest = emit bottommost tt true ik.user_key es in
          ap (visible u r) (
            emit_ok bottommost tt true last e es ik p
            ∙ ap (λ (d : KeepDecision). keep_if d e rest) (drops_again u last ik same again))
          ∙ gone es ik.user_key (bytes_eq_lem ik.user_key u again) ms hs
      | inr other ↦
          let above = next_key_above e ik p other h in
          visible-none u r _ (
            emit-All bottommost (λ f. seen_by u r f ≡ false) (e ∷ es) tt true last
              (
                seen_by_ok u r e ik p ∙ rw other,
                All-map es (λ f g. Above-unseen u r f (Above-of_Precedes u e f ik p above g)) m,
              ))
    ]
  ]
