-- ===== src/Compaction/Loop/Bottommost.antt =====
-- `BottommostStrategy`: the newest version of each key, unless it is a tombstone.
pub mod Behind
use Behind.{gone}
use compactor.Prelude.{
  ℕ, leb, Bool, true, false, not, ◌&&◌, ◌||◌, Bytes, List, [], ◌∷◌, ◌≡◌, refl, sym, ap, ◌∙◌, inl,
  inr, arith, Bool-cases, All, Option, none, some, Ordering, ◌⊎◌, if◌then◌else◌,
}
use compactor.Format.Error.{ok, err, Result-cases}
use compactor.Format.InternalKey.{InternalKey, split}
use compactor.Merge.Cmp.{compare_bytes}
use compactor.Merge.Cmp.Order.{
  compare_internal_keys_users, compare_bytes_trans, compare_bytes_refl, eq_of_compare_bytes,
}
use compactor.Compaction.Strategy.{
  KeepDecision, keep, drop, bottommost, decide_bottommost, is_tombstone,
}
use compactor.Compaction.Loop.{Entry, bytes_eq, compacted}
use compactor.Compaction.Loop.Emit.{
  emit, emit_nil, emit_ok, emit_err, is_first, keep_if, compacted-emit,
}
use compactor.Compaction.Loop.Order.{emit-All}
use compactor.Compaction.Loop.Current.{first_version}
use compactor.Compaction.Readers.{
  live_ok, live-none, visible-keep_if, bytes_eq_lem, seen_by, visible, seen_by_ok, seen_by_err,
  visible_seen, visible_unseen, is_version, is_version_ok, Covers, IsMerged, Precedes, live,
}
use compactor.Compaction.Readers.Newest.{splits_agree, suffix}

-- The newest version: kept unless it is a tombstone.
decides_first :
    (ik : InternalKey) (b : Bool)
    → is_tombstone ik.value_type ≡ b
    → (decide_bottommost tt ik true).1 ≡ (if b then drop else keep)
unfolding decide_bottommost
decides_first ik b e = ground arith

module _ (u : Bytes) (r : ℕ) where
  first_emitted :
      (e : Entry) (es : List Entry) (ik : InternalKey) (has : Bool) (last : Bytes)
      → split e.0 ≡ ok ik
      → (has && bytes_eq last u) ≡ false
      → bytes_eq ik.user_key u ≡ true
      → emit bottommost tt has last (e ∷ es)
        ≡ keep_if
            (if is_tombstone ik.value_type then drop else keep)
            e
            (emit bottommost tt true ik.user_key es)
  first_emitted e es ik has last p h same =
      emit_ok bottommost tt has last e es ik p
      ∙ ap (λ (d : KeepDecision). keep_if d e (emit bottommost tt true ik.user_key es))
          (ap (λ (b : Bool). (decide_bottommost tt ik b).1) (first_version has last u ik h same)
            ∙ decides_first ik (is_tombstone ik.value_type) refl)

  first_visible :
      (e : Entry) (rest : List Entry) (tombstone : Bool)
      → seen_by u r e ≡ true
      → visible u r rest ≡ none
      → visible u r (keep_if (if tombstone then drop else keep) e rest)
        ≡ (if tombstone then none else some e)
  first_visible e rest true seen h = h
  first_visible e rest false seen h = visible_seen u r e rest seen

  emit-live :
      (es : List Entry) (has : Bool) (last : Bytes)
      → (has && bytes_eq last u) ≡ false
      → Covers u r es
      → IsMerged es
      → visible u r (emit bottommost tt has last es) ≡ live (visible u r es)
  unfolding visible
  emit-live [] has last h c m = ap (visible u r) (emit_nil bottommost tt has last) ∙ sym live-none
  emit-live (e ∷ es) has last h (c, cs) (m, ms) = elim (Result-cases (split e.0)) [
    | inr (x, p) ↦
        ap (visible u r) (emit_err bottommost tt has last e es p)
        ∙ emit-live es has last h cs ms
        ∙ ap live (sym (visible_unseen u r e es (seen_by_err u r e p)))
    | inl (ik, p) ↦ elim (Bool-cases (bytes_eq ik.user_key u)) [
      | inl same ↦
          let seen = c (is_version_ok u e ik p ∙ same) in
          ap (visible u r) (first_emitted e es ik has last p h same)
          ∙ first_visible e _ (is_tombstone ik.value_type) seen (
              gone u r e ik p (bytes_eq_lem ik.user_key u same) es ik.user_key
                (bytes_eq_lem ik.user_key u same) ms m)
          ∙ sym (live_ok e ik p)
          ∙ ap live (sym (visible_seen u r e es seen))
      | inr other ↦
          let unseen = seen_by_ok u r e ik p ∙ rw other in
          ap (visible u r) (emit_ok bottommost tt has last e es ik p)
          ∙ visible-keep_if u r (decide_bottommost tt ik (is_first has last ik)).1 e _ unseen
          ∙ emit-live es true ik.user_key other cs ms
          ∙ ap live (sym (visible_unseen u r e es unseen))
    ]
  ]

  -- On a merge output in order, `BottommostStrategy` shows a reader that is at least as new as
  -- every version of a user key the first version of it in the input, or nothing where that is a
  -- tombstone or there is none.
  pub compacted-live :
      (merged : List Entry)
      → Covers u r merged
      → IsMerged merged
      → visible u r (compacted bottommost tt merged) ≡ live (visible u r merged)
  compacted-live merged c m =
      ap (visible u r) (compacted-emit bottommost tt merged) ∙ emit-live merged false [] refl c m
