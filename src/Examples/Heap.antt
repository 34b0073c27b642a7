-- ===== src/Examples/Heap.antt =====
-- The merge with the heap, of two small sources.
use mathlib.Core.List.{Permᴰ}
use compactor.Prelude.{◌≡◌, refl, true, List, [], ◌∷◌, map, some, arith, slice}
use compactor.Format.Block.Entries.{fold_entries}
use compactor.Format.Fixed.{from_le_bytes}
use compactor.Merge.Cmp
use compactor.Merge.Cmp.{
  compare_bytes, compare_suffixed, internal_key_comparator, compare_with_prefix,
  compare_internal_keys,
}
use compactor.Merge.Cmp.Total.{internal_key_order}
use compactor.Merge.Heap.{
  heap_merge_all, new_heap_merger, push_fronts, push_front, run_heap, pop, greater_of, entry_cmp,
  next_entry,
}
use compactor.Merge.Heap.Merging.{heap_merge_all-Merged}
use compactor.Merge.LoserTree.Run.{InOrder}
use compactor.Merge.Source.{
  KeyValue, arena_source, peek_arena, advance_arena, entry_of, key, val, byte_range, build, push,
  new_builder,
}
use compactor.Merge.Source.Arena.{arena_of, push_all}
use compactor.Merge.Streams.{all_entries}
use compactor.Examples.Whole.{packed, collected, sources, sources-Compactable}

-- The heap merge calls the callback on the same entries as the loser tree.
heap_merge_all_run :
    heap_merge_all arena_source internal_key_comparator collected 5 (map arena_of sources) []
    ≡ some (
      (packed b'a' 1 7, 20 ∷ [])
          ∷ (packed b'a' 1 3, 10 ∷ [])
          ∷ (packed b'b' 0 8, [])
          ∷ (packed b'b' 1 2, 11 ∷ [])
          ∷ [],
      true,
    )
unfolding heap_merge_all new_heap_merger push_fronts push_front run_heap pop greater_of entry_cmp
    next_entry compare_with_prefix compare_internal_keys Cmp.split compare_suffixed compare_bytes
    from_le_bytes peek_arena advance_arena entry_of key val byte_range slice arena_of push_all build
    push new_builder
heap_merge_all_run = refl

heap_merge_all-Merged_example :
    (merged : List KeyValue) × (heap_merge_all arena_source internal_key_comparator collected 5
        (map arena_of sources)
        []
      ≡ some (fold_entries collected [] merged, true))
    × Permᴰ merged (all_entries sources)
    × InOrder internal_key_order merged
heap_merge_all-Merged_example =
    heap_merge_all-Merged arena_source internal_key_order collected (map arena_of sources) sources
      sources-Compactable.streams sources-Compactable.keyed 5 [] sources-Compactable.ordered
      (omega arith)
