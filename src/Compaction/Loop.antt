-- ===== src/Compaction/Loop.antt =====
-- crates/compactor/src/compaction/mod.rs, `compact_with_strategy`: the closure that it hands to
-- `merger.run`, over the entries in the order in which the merge calls it.
pub mod Emit
pub mod Snapshot
pub mod Current
pub mod Order
pub mod Bottommost
use compactor.Prelude.{
  ℕ, ◌==◌, Bool, true, false, not, ◌||◌, ◌&&◌, Bytes, List, [], ◌∷◌, ◌++◌, if◌then◌else◌,
}
use compactor.Format.Error.{Result, ok, err}
use compactor.Format.InternalKey.{InternalKey, split}
use compactor.Compaction.Strategy.{CompactionStrategy, KeepDecision, keep, drop}

abbrev pub Entry : Type 0
Entry = Bytes × Bytes

-- `==` of two byte slices
unfoldable pub bytes_eq : Bytes → Bytes → Bool
bytes_eq [] [] = true
bytes_eq [] (y ∷ ys) = false
bytes_eq (x ∷ xs) [] = false
bytes_eq (x ∷ xs) (y ∷ ys) = x == y && bytes_eq xs ys

-- What the closure captures. `strategy` is the state behind the `&mut dyn CompactionStrategy`.
pub record LoopState (S : Type 0) : Type 0 where
  pub strategy : S
  pub output : List Entry
  pub last_user_key : Bytes
  pub has_last_user_key : Bool

-- `if … == KeepDecision::Drop { return }`, or the entry is pushed.
unfoldable pub output_after : KeepDecision → List Entry → Entry → List Entry
output_after drop output e = output
output_after keep output e = output ++ e ∷ []

module _ (strat : CompactionStrategy) where
  unfoldable pub start : strat.State → LoopState strat.State
  start s = record { strategy = s; output = []; last_user_key = []; has_last_user_key = false }

  -- The body behind a key that splits.
  unfoldable pub visit_split : LoopState strat.State → Entry → InternalKey → LoopState strat.State
  visit_split st e ik =
      let is_first_for_key =
        not st.has_last_user_key || not (bytes_eq st.last_user_key ik.user_key) in
      let (s, decision) = strat.decide st.strategy ik is_first_for_key in
      record {
        strategy = s;
        output = output_after decision st.output e;
        last_user_key = ik.user_key;
        has_last_user_key = true;
      }

  -- An entry whose key does not split is skipped.
  unfoldable pub visit : LoopState strat.State → Entry → LoopState strat.State
  visit st e = elim (split e.0) [ err _ ↦ st | ok ik ↦ visit_split st e ik ]

  unfoldable pub visit_all : LoopState strat.State → List Entry → LoopState strat.State
  visit_all st [] = st
  visit_all st (e ∷ es) = visit_all (visit st e) es

  -- The `output` that goes on to `build_sst`.
  unfoldable pub compacted : strat.State → List Entry → List Entry
  compacted s merged = (visit_all (start s) merged).output
