-- ===== src/Compaction/Loop/Emit.antt =====
-- The loop without its accumulator: what the entries that are still to come add to the output.
use compactor.Prelude.{
  Bool, true, false, not, ◌||◌, Bytes, List, [], ◌∷◌, ◌++◌, ◌≡◌, refl, sym, ap, ◌∙◌, append-nil,
  append_assoc, inl, inr,
}
use compactor.Format.Error.{ok, err, Error, Result-cases}
use compactor.Format.InternalKey.{InternalKey, split}
use compactor.Compaction.Strategy.{CompactionStrategy, KeepDecision, keep, drop}
use compactor.Compaction.Loop.{
  Entry, LoopState, bytes_eq, output_after, start, visit, visit_split, visit_all, compacted,
}

abbrev pub keep_if : KeepDecision → Entry → List Entry → List Entry
keep_if drop e rest = rest
keep_if keep e rest = e ∷ rest

-- `is_first_for_key`
abbrev pub is_first : Bool → Bytes → InternalKey → Bool
is_first has last ik = not has || not (bytes_eq last ik.user_key)

output_after-append :
    (d : KeepDecision) (out : List Entry) (e : Entry) (rest : List Entry)
    → output_after d out e ++ rest ≡ out ++ keep_if d e rest
unfolding output_after
output_after-append drop out e rest = refl
output_after-append keep out e rest = append_assoc out (e ∷ []) rest

module _ (strat : CompactionStrategy) where
  pub emit : strat.State → Bool → Bytes → List Entry → List Entry
  emit s has last [] = []
  emit s has last (e ∷ es) = elim (split e.0) [
    | err _ ↦ emit s has last es
    | ok ik ↦
        let (s', decision) = strat.decide s ik (is_first has last ik) in
        keep_if decision e (emit s' true ik.user_key es)
  ]

  pub emit_nil : (s : strat.State) (has : Bool) (last : Bytes) → emit s has last [] ≡ []
  unfolding emit
  emit_nil s has last = refl

  module _ (s : strat.State) (has : Bool) (last : Bytes) (e : Entry) (es : List Entry) where
    pub emit_err : {x : Error} → split e.0 ≡ err x → emit s has last (e ∷ es) ≡ emit s has last es
    unfolding emit
    emit_err p = rw (p, emit)

    pub emit_ok :
        (ik : InternalKey)
        → split e.0 ≡ ok ik
        → emit s has last (e ∷ es)
          ≡ keep_if
              (strat.decide s ik (is_first has last ik)).1
              e
              (emit (strat.decide s ik (is_first has last ik)).0 true ik.user_key es)
    unfolding emit
    emit_ok ik p = rw (p, emit)

  -- What `visit` adds to the output, and the state that it leaves.
  abbrev after_visit : LoopState strat.State → List Entry → List Entry
  after_visit st es = st.output ++ emit st.strategy st.has_last_user_key st.last_user_key es

  visit_split-emit :
      (st : LoopState strat.State) (e : Entry) (ik : InternalKey) (es : List Entry)
      → let first = is_first st.has_last_user_key st.last_user_key ik in
        after_visit (visit_split strat st e ik) es
        ≡ st.output
          ++ keep_if
              (strat.decide st.strategy ik first).1
              e
              (emit (strat.decide st.strategy ik first).0 true ik.user_key es)
  unfolding visit_split
  visit_split-emit st e ik es =
      output_after-append
        (strat.decide st.strategy ik (is_first st.has_last_user_key st.last_user_key ik)).1
        st.output e _

  visit_ok :
      (st : LoopState strat.State) (e : Entry) (ik : InternalKey)
      → split e.0 ≡ ok ik
      → visit strat st e ≡ visit_split strat st e ik
  unfolding visit
  visit_ok st e ik p = rw (p, visit)

  visit_err :
      (st : LoopState strat.State) (e : Entry) {x : Error}
      → split e.0 ≡ err x
      → visit strat st e ≡ st
  unfolding visit
  visit_err st e p = rw (p, visit)

  visit-emit :
      (st : LoopState strat.State) (e : Entry) (es : List Entry)
      → after_visit (visit strat st e) es ≡ after_visit st (e ∷ es)
  visit-emit st e es = elim (Result-cases (split e.0)) [
    | inl (ik, p) ↦ rw (visit_ok st e ik p) (
        visit_split-emit st e ik es
        ∙ ap (◌++◌ st.output)
            (sym (emit_ok st.strategy st.has_last_user_key st.last_user_key e es ik p)))
    | inr (x, p) ↦ rw (visit_err st e p) (
        ap (◌++◌ st.output)
          (sym (emit_err st.strategy st.has_last_user_key st.last_user_key e es p)))
  ]

  visit_all-emit :
      (es : List Entry) (st : LoopState strat.State)
      → (visit_all strat st es).output ≡ after_visit st es
  unfolding visit_all
  visit_all-emit [] st = unfold emit in sym (append-nil st.output)
  visit_all-emit (e ∷ es) st = visit_all-emit es (visit strat st e) ∙ visit-emit st e es

  pub compacted-emit :
      (s : strat.State) (merged : List Entry) → compacted strat s merged ≡ emit s false [] merged
  unfolding compacted start
  compacted-emit s merged = visit_all-emit merged (start strat s)
