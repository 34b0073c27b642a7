-- ===== src/Compaction/Whole.antt =====
-- crates/compactor/src/compaction/mod.rs, `compact_with_strategy` up to `build_sst`: the loser tree
-- over the sources, with the closure of the loop. `none` is a panic.
pub mod Sources
pub mod Readers
pub mod Arenas
use compactor.Prelude.{ℕ, suc, ◌+◌, Bytes, List, [], ◌∷◌, Option, none, some, ◌>>=◌}
use compactor.Merge.Cmp.{internal_key_comparator}
use compactor.Merge.Source.{ArenaSource, arena_source, len}
use compactor.Merge.LoserTree.Merging.{merge_all}
use compactor.Compaction.Strategy.{CompactionStrategy, bottommost}
use compactor.Compaction.Loop.{Entry, LoopState, start, visit}

-- The entries of all sources, which bound the rounds of the merge.
unfoldable pub total_entries : List ArenaSource → ℕ
total_entries [] = 0
total_entries (s ∷ sources) = len s + total_entries sources

-- The closure, on the entry that `merger.run` hands to it.
unfoldable pub on_entry :
    (strat : CompactionStrategy) → LoopState strat.State → Bytes → Bytes → LoopState strat.State
on_entry strat st key value = visit strat st (key, value)

-- The `output` that `build_sst` is called with.
unfoldable pub merged_output :
    (strat : CompactionStrategy) → strat.State → List ArenaSource → Option (List Entry)
merged_output strat s sources = do
  (st, _) ←
      merge_all arena_source internal_key_comparator (on_entry strat) (suc (total_entries sources))
        sources (start strat s)
  some st.output
