-- ===== src/Compaction/Loop/Order.antt =====
-- What every strategy keeps of the merge output: some of its entries, in their order.
use mathlib.Core.List.{Sublistᴰ}
use compactor.Prelude.{Bool, true, false, Bytes, List, [], ◌∷◌, refl, inl, inr, All}
use compactor.Format.Error.{Result-cases}
use compactor.Format.InternalKey.{split}
use compactor.Compaction.Strategy.{CompactionStrategy, KeepDecision, keep, drop}
use compactor.Compaction.Loop.{Entry, compacted}
use compactor.Compaction.Loop.Emit.{
  emit, emit_nil, emit_ok, emit_err, is_first, keep_if, compacted-emit,
}
use compactor.Compaction.Readers.{Precedes, IsMerged}

-- A property that an emitted list has if its parts have it, carried over the whole loop.
module _ {κ} (strat : CompactionStrategy) (Q : List Entry → List Entry → Type κ) (at_end : Q [] [])
    (skip : (e : Entry) (es out : List Entry) → Q es out → Q (e ∷ es) out)
    (take : (e : Entry) (es out : List Entry) → Q es out → Q (e ∷ es) (e ∷ out)) where
  keep_if_rule :
      (d : KeepDecision) (e : Entry) (es out : List Entry) → Q es out → Q (e ∷ es) (keep_if d e out)
  keep_if_rule drop e es out h = skip e es out h
  keep_if_rule keep e es out h = take e es out h

  pub emit_rule :
      (es : List Entry) (s : strat.State) (has : Bool) (last : Bytes)
      → Q es (emit strat s has last es)
  emit_rule [] s has last = rw (emit_nil strat s has last) at_end
  emit_rule (e ∷ es) s has last = elim (Result-cases (split e.0)) [
    | inl (ik, p) ↦ rw (emit_ok strat s has last e es ik p) (
        keep_if_rule (strat.decide s ik (is_first has last ik)).1 e es _
          (emit_rule es (strat.decide s ik (is_first has last ik)).0 true ik.user_key))
    | inr (x, p) ↦ rw (emit_err strat s has last e es p) (skip e es _ (emit_rule es s has last))
  ]

  pub compacted_rule : (s : strat.State) (merged : List Entry) → Q merged (compacted strat s merged)
  compacted_rule s merged = rw (compacted-emit strat s merged) (emit_rule merged s false [])

module _ (strat : CompactionStrategy) where
  -- Whatever the strategy, the output is what is left of the merge output when some entries are
  -- taken out: the loop adds nothing, changes no entry and keeps the order.
  pub compacted-Sublist :
      (s : strat.State) (merged : List Entry) → Sublistᴰ (compacted strat s merged) merged
  compacted-Sublist s merged =
      compacted_rule strat (λ es out. Sublistᴰ out es) Sublistᴰ.slnil
        (λ e es out h. Sublistᴰ.cons h) (λ e es out h. Sublistᴰ.cons-cons refl h) s merged

  pub emit-All :
      (P : Entry → Type 0) (es : List Entry) (s : strat.State) (has : Bool) (last : Bytes)
      → All P es
      → All P (emit strat s has last es)
  emit-All P =
      emit_rule strat (λ es out. All P es → All P out) (λ h. h) (λ e es out h (p, ps). h ps)
        (λ e es out h (p, ps). (p, h ps))

  -- Whatever the strategy, its output on a merge output in order is in merge order again.
  pub compacted-IsMerged :
      (s : strat.State) (merged : List Entry)
      → IsMerged merged
      → IsMerged (compacted strat s merged)
  compacted-IsMerged s merged h =
      (compacted_rule strat
        (λ es out. IsMerged es → IsMerged out × ((P : Entry → Type 0) → All P es → All P out))
        (λ h. (h, λ P a. a)) (λ e es out ih (p, ps). ((ih ps).0, λ P (q, qs). (ih ps).1 P qs))
        (λ e es out ih (p, ps).
          (((ih ps).1 (Precedes e) p, (ih ps).0), λ P (q, qs). (q, (ih ps).1 P qs)))
        s merged h).0
