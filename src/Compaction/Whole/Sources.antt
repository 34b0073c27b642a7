-- ===== src/Compaction/Whole/Sources.antt =====
-- A whole compaction: from sources in order to the entries of the output file.
use mathlib.Core.List.{Permᴰ}
use compactor.Prelude.{suc, ◌≤◌, List, [], ◌∷◌, some, length, All, ◌≡◌, refl, arith}
use compactor.Format.Block.Entries.{fold_entries}
use compactor.Merge.Cmp.Total.{
  internal_key_order, compare_internal_keys-order_of, compare_suffixed_swap, parts,
}
use compactor.Merge.Source.{KeyValue, ArenaSource, arena_source}
use compactor.Merge.LoserTree.Run.{NotAfter, InOrder}
use compactor.Merge.LoserTree.Sorted.{All-perm, All-all_entries}
use compactor.Merge.LoserTree.Merging.{merge_all-Merged}
use compactor.Merge.Streams.{AllStream, all_entries}
use compactor.Compaction.Strategy.{CompactionStrategy}
use compactor.Compaction.Loop.{LoopState, start, visit_all, compacted}
use compactor.Compaction.Readers.{Precedes, IsMerged}
use compactor.Compaction.Whole.{total_entries, on_entry, merged_output}

abbrev pub IsKeyed : KeyValue → Type 0
IsKeyed e = 8 ≤ length e.0

-- For keys with a suffix the order of the merge is that of `compare_internal_keys`.
NotAfter-Precedes :
    (a b : KeyValue) → IsKeyed a → IsKeyed b → NotAfter internal_key_order a b → Precedes a b
NotAfter-Precedes a b ha hb h = ground (
  arith,
  compare_internal_keys-order_of a.0 b.0 ha hb,
  compare_suffixed_swap (parts a.0) (parts b.0),
)

NotAfter-Precedes-All :
    (a : KeyValue) (es : List KeyValue)
    → IsKeyed a
    → All IsKeyed es
    → All (NotAfter internal_key_order a) es
    → All (Precedes a) es
NotAfter-Precedes-All a [] ha hs t = tt
NotAfter-Precedes-All a (e ∷ es) ha (h, hs) (t, ts) =
    (NotAfter-Precedes a e ha h t, NotAfter-Precedes-All a es ha hs ts)

pub InOrder-IsMerged :
    (es : List KeyValue) → All IsKeyed es → InOrder internal_key_order es → IsMerged es
InOrder-IsMerged [] h t = tt
InOrder-IsMerged (e ∷ es) (h, hs) (t, ts) =
    (NotAfter-Precedes-All e es h hs t, InOrder-IsMerged es hs ts)

-- The sources of a compaction, with the entries that they stream, in order.
pub record Compactable (sources : List ArenaSource) (ess : List (List KeyValue)) : Type 0 where
  pub streams : AllStream arena_source sources ess
  pub keyed : All (All IsKeyed) ess
  pub ordered : All (InOrder internal_key_order) ess
  pub counted : length (all_entries ess) ≤ total_entries sources

fold_entries-visit_all :
    (strat : CompactionStrategy) (es : List KeyValue) (st : LoopState strat.State)
    → fold_entries (on_entry strat) st es ≡ visit_all strat st es
unfolding on_entry visit_all
fold_entries-visit_all strat [] st = refl
fold_entries-visit_all strat ((k, v) ∷ es) st =
    fold_entries-visit_all strat es (on_entry strat st k v)

-- A compaction of sources in order does not panic, and puts out what the loop makes of one list: all
-- entries of the sources, each as often as it occurs, in merge order.
pub merged_output-compacted :
    (strat : CompactionStrategy) (s : strat.State) (sources : List ArenaSource)
    (ess : List (List KeyValue))
    → Compactable sources ess
    → (merged : List KeyValue) × (merged_output strat s sources ≡ some (compacted strat s merged))
      × Permᴰ merged (all_entries ess)
      × IsMerged merged
unfolding merged_output compacted
merged_output-compacted strat s sources ess c =
    let (merged, e, p, sorted) =
      merge_all-Merged arena_source internal_key_order sources ess c.streams c.keyed
        (on_entry strat) (suc (total_entries sources)) (start strat s) c.ordered
        (omega (arith, c.counted)) in
    (
      merged,
      rw (e, fold_entries-visit_all strat merged (start strat s)) refl,
      p,
      InOrder-IsMerged merged (All-perm IsKeyed p (All-all_entries IsKeyed ess c.keyed)) sorted,
    )
