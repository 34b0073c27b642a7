-- ===== src/Compaction/Loop/Snapshot.antt =====
-- What a compaction leaves visible, with `SnapshotAwareStrategy`.
use compactor.Prelude.{
  ℕ, leb, Bool, true, false, not, ◌&&◌, Bytes, List, [], ◌∷◌, ◌≡◌, refl, sym, ap, ◌∙◌, inl, inr,
  arith, Bool-cases,
}
use compactor.Format.Error.{ok, Result-cases}
use compactor.Format.InternalKey.{InternalKey, split}
use compactor.Compaction.Strategy.{
  SnapshotAware, KeepDecision, keep, decide_snapshot_aware, snapshot_aware, new_snapshot_aware,
}
use compactor.Compaction.Loop.{Entry, bytes_eq, compacted}
use compactor.Compaction.Loop.Emit.{
  emit, emit_nil, emit_ok, emit_err, is_first, keep_if, compacted-emit,
}
use compactor.Compaction.Readers.{
  visible-keep_if, bytes_eq_lem, seen_by, visible, seen_by_ok, seen_by_err, visible_seen,
  visible_unseen,
}

-- The facts about one decision. `pending` says that the version for the snapshot is still to come.
module _ (s : SnapshotAware) (ik : InternalKey) (first : Bool) where
  snapshot_kept : (decide_snapshot_aware s ik first).0.snapshot_seqno ≡ s.snapshot_seqno
  unfolding decide_snapshot_aware
  snapshot_kept = ground arith

  module _ (pending : (not first && s.kept_visible_version_for_current_key) ≡ false) where
    keeps_visible :
        leb ik.sequence s.snapshot_seqno ≡ true → (decide_snapshot_aware s ik first).1 ≡ keep
    unfolding decide_snapshot_aware
    keeps_visible h = ground arith

    stays_pending :
        leb ik.sequence s.snapshot_seqno ≡ false
        → (decide_snapshot_aware s ik first).0.kept_visible_version_for_current_key ≡ false
    unfolding decide_snapshot_aware
    stays_pending h = ground arith

-- One step at an entry whose key splits; `ih` is the claim at the state that it leaves.
module _ (u : Bytes) (e : Entry) (es : List Entry) (s : SnapshotAware) (has : Bool) (last : Bytes)
    (ik : InternalKey) (p : split e.0 ≡ ok ik) where
  first : Bool
  first = is_first has last ik

  next : SnapshotAware
  next = (decide_snapshot_aware s ik first).0

  rest : List Entry
  rest = emit snapshot_aware next true ik.user_key es

  step_unseen :
      seen_by u s.snapshot_seqno e ≡ false
      → visible u next.snapshot_seqno rest ≡ visible u next.snapshot_seqno es
      → visible u s.snapshot_seqno (emit snapshot_aware s has last (e ∷ es))
        ≡ visible u s.snapshot_seqno (e ∷ es)
  unfolding first next rest
  step_unseen unseen ih =
      ap (visible u s.snapshot_seqno) (emit_ok snapshot_aware s has last e es ik p)
      ∙ visible-keep_if u s.snapshot_seqno (decide_snapshot_aware s ik first).1 e rest unseen
      ∙ rw (snapshot_kept s ik first) at ih
      ∙ sym (visible_unseen u s.snapshot_seqno e es unseen)

  step_seen :
      (not first && s.kept_visible_version_for_current_key) ≡ false
      → leb ik.sequence s.snapshot_seqno ≡ true
      → seen_by u s.snapshot_seqno e ≡ true
      → visible u s.snapshot_seqno (emit snapshot_aware s has last (e ∷ es))
        ≡ visible u s.snapshot_seqno (e ∷ es)
  unfolding first next rest
  step_seen pending early seen =
      ap (visible u s.snapshot_seqno) (
        emit_ok snapshot_aware s has last e es ik p
        ∙ ap (λ (d : KeepDecision). keep_if d e rest) (keeps_visible s ik first pending early))
      ∙ visible_seen u s.snapshot_seqno e rest seen
      ∙ sym (visible_seen u s.snapshot_seqno e es seen)

  step_visible :
      (has && bytes_eq last u && s.kept_visible_version_for_current_key) ≡ false
      → ((bytes_eq ik.user_key u && next.kept_visible_version_for_current_key) ≡ false
          → visible u next.snapshot_seqno rest ≡ visible u next.snapshot_seqno es)
      → visible u s.snapshot_seqno (emit snapshot_aware s has last (e ∷ es))
        ≡ visible u s.snapshot_seqno (e ∷ es)
  unfolding next
  step_visible h ih = elim (Bool-cases (bytes_eq ik.user_key u)) [
    | inr other ↦ step_unseen (seen_by_ok u s.snapshot_seqno e ik p ∙ rw other) (ih (rw other))
    | inl same ↦ elim (Bool-cases (leb ik.sequence s.snapshot_seqno)) [
      | inl early ↦
          step_seen (pending same) early (seen_by_ok u s.snapshot_seqno e ik p ∙ rw (same, early))
      | inr late ↦
          step_unseen (seen_by_ok u s.snapshot_seqno e ik p ∙ rw (same, late))
            (ih (rw same (stays_pending s ik first (pending same) late)))
    ]
  ]
    where
      pending :
          bytes_eq ik.user_key u ≡ true
          → (not first && s.kept_visible_version_for_current_key) ≡ false
      pending same =
          unfold first in ground (arith, ap (bytes_eq last) (bytes_eq_lem ik.user_key u same))

module _ (u : Bytes) where
  -- From a state where the version of `u` for the snapshot is not yet past, the rest of the
  -- output shows the snapshot's reader what the rest of the input does.
  emit-visible :
      (es : List Entry) (s : SnapshotAware) (has : Bool) (last : Bytes)
      → (has && bytes_eq last u && s.kept_visible_version_for_current_key) ≡ false
      → visible u s.snapshot_seqno (emit snapshot_aware s has last es)
        ≡ visible u s.snapshot_seqno es
  unfolding rest
  emit-visible [] s has last h =
      ap (visible u s.snapshot_seqno) (emit_nil snapshot_aware s has last)
  emit-visible (e ∷ es) s has last h = elim (Result-cases (split e.0)) [
    | inr (x, p) ↦ rw (emit_err snapshot_aware s has last e es p) (
        emit-visible es s has last h
        ∙ sym (visible_unseen u s.snapshot_seqno e es (seen_by_err u s.snapshot_seqno e p)))
    | inl (ik, p) ↦
        step_visible u e es s has last ik p h
          (emit-visible es (next u e es s has last ik p) true ik.user_key)
  ]

  -- `SnapshotAwareStrategy` started at snapshot number `snapshot` shows a reader at that number
  -- the same first visible version of every user key, or none, in the output as in the input.
  pub compacted-visible :
      (snapshot : ℕ) (merged : List Entry)
      → visible u snapshot (compacted snapshot_aware (new_snapshot_aware snapshot) merged)
        ≡ visible u snapshot merged
  unfolding new_snapshot_aware
  compacted-visible snapshot merged =
      ap (visible u snapshot) (compacted-emit snapshot_aware _ merged)
      ∙ emit-visible merged (new_snapshot_aware snapshot) false [] refl
