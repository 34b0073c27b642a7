-- ===== src/Compaction/Loop/Current.antt =====
-- Readers that are newer than every version: what they see of a compaction's output.
use compactor.Prelude.{
  ℕ, Bool, true, false, ◌&&◌, Bytes, List, [], ◌∷◌, ◌≡◌, refl, sym, ap, ◌∙◌, inl, inr, arith,
  Bool-cases,
}
use compactor.Format.Error.{Result-cases}
use compactor.Format.InternalKey.{InternalKey, split}
use compactor.Compaction.Strategy.{
  CompactionStrategy, KeepDecision, keep, snapshot_aware, decide_snapshot_aware,
}
use compactor.Compaction.Loop.{Entry, bytes_eq, compacted}
use compactor.Compaction.Loop.Emit.{
  emit, emit_nil, emit_ok, emit_err, is_first, keep_if, compacted-emit,
}
use compactor.Compaction.Readers.{
  visible-keep_if, bytes_eq_lem, visible, seen_by_ok, seen_by_err, visible_seen, visible_unseen,
  is_version_ok, Covers,
}

-- A strategy that never drops the newest version of a key.
abbrev pub KeepsNewest : CompactionStrategy → Type 0
KeepsNewest strat = (s : strat.State) (ik : InternalKey) → (strat.decide s ik true).1 ≡ keep

pub snapshot_aware-KeepsNewest : KeepsNewest snapshot_aware
unfolding decide_snapshot_aware
snapshot_aware-KeepsNewest s ik = ground arith

-- The first entry of a key, and any entry of another key.
pub first_version :
    (has : Bool) (last u : Bytes) (ik : InternalKey)
    → (has && bytes_eq last u) ≡ false
    → bytes_eq ik.user_key u ≡ true
    → is_first has last ik ≡ true
first_version has last u ik h same =
    ground (arith, ap (bytes_eq last) (bytes_eq_lem ik.user_key u same))

module _ (strat : CompactionStrategy) (keeps : KeepsNewest strat) (u : Bytes) (r : ℕ) where
  emit-visible_covered :
      (es : List Entry) (s : strat.State) (has : Bool) (last : Bytes)
      → (has && bytes_eq last u) ≡ false
      → Covers u r es
      → visible u r (emit strat s has last es) ≡ visible u r es
  emit-visible_covered [] s has last h c = ap (visible u r) (emit_nil strat s has last)
  emit-visible_covered (e ∷ es) s has last h (c, cs) = elim (Result-cases (split e.0)) [
    | inr (x, p) ↦
        ap (visible u r) (emit_err strat s has last e es p)
        ∙ emit-visible_covered es s has last h cs
        ∙ sym (visible_unseen u r e es (seen_by_err u r e p))
    | inl (ik, p) ↦ elim (Bool-cases (bytes_eq ik.user_key u)) [
      | inl same ↦
          let seen = c (is_version_ok u e ik p ∙ same) in
          let kept =
            ap (λ (b : Bool). (strat.decide s ik b).1) (first_version has last u ik h same)
            ∙ keeps s ik in
          let rest = emit strat (strat.decide s ik (is_first has last ik)).0 true ik.user_key es in
          ap (visible u r)
            (emit_ok strat s has last e es ik p ∙ ap (λ (d : KeepDecision). keep_if d e rest) kept)
          ∙ visible_seen u r e rest seen
          ∙ sym (visible_seen u r e es seen)
      | inr other ↦
          let unseen = seen_by_ok u r e ik p ∙ rw other in
          let s' = (strat.decide s ik (is_first has last ik)).0 in
          ap (visible u r) (emit_ok strat s has last e es ik p)
          ∙ visible-keep_if u r (strat.decide s ik (is_first has last ik)).1 e _ unseen
          ∙ emit-visible_covered es s' true ik.user_key other cs
          ∙ sym (visible_unseen u r e es unseen)
    ]
  ]

  -- With a strategy that keeps every newest version, a reader that is at least as new as every
  -- version of a user key sees the same first version of it in the output as in the input.
  pub compacted-visible_covered :
      (s : strat.State) (merged : List Entry)
      → Covers u r merged
      → visible u r (compacted strat s merged) ≡ visible u r merged
  compacted-visible_covered s merged c =
      ap (visible u r) (compacted-emit strat s merged)
      ∙ emit-visible_covered merged s false [] refl c
