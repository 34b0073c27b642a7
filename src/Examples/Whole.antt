-- ===== src/Examples/Whole.antt =====
-- A compaction of two small sources, run and by the theorems.
use mathlib.Core.List.{Permᴰ}
use compactor.Prelude.{ℕ, ◌≡◌, refl, true, Bytes, List, [], ◌∷◌, ◌++◌, map, some, All, arith, slice}
use compactor.Format.Block.Entries.{fold_entries}
use compactor.Merge.Cmp.{compare_bytes, compare_suffixed, internal_key_comparator}
use compactor.Merge.Cmp.Total.{internal_key_order}
use compactor.Merge.Cmp
use compactor.Merge.Cmp.{compare_with_prefix, compare_internal_keys}
use compactor.Merge.LoserTree.{
  next_power_of_two, power_from, build_subtree, less, peek_at, less_front, new, run, advance_winner,
  replay_from_leaf, replay_loop,
}
use compactor.Merge.Source.{
  KeyValue, arena_source, peek_arena, advance_arena, entry_of, key, val, byte_range, build, push,
  new_builder,
}
use compactor.Merge.Source.Arena.{arena_of, bytes_of, push_all}
use compactor.Merge.LoserTree.Run.{InOrder}
use compactor.Merge.LoserTree.Merging.{merge_all, merge_all-Merged}
use compactor.Merge.Streams.{all_entries}
use compactor.Format.Fixed.{from_le_bytes}
use compactor.Format.InternalKey.{split}
use compactor.Compaction.Strategy.{bottommost, snapshot_aware, new_snapshot_aware, passthrough}
use compactor.Compaction.Loop.{Entry, compacted, bytes_eq}
use compactor.Compaction.Readers.{Covers, IsMerged, live, is_version, seen_by}
use compactor.Compaction.Readers.Newest.{newest, sequence_of}
use compactor.Compaction.Whole.{merged_output}
use compactor.Compaction.Whole.Sources.{Compactable, merged_output-compacted}
use compactor.Compaction.Whole.Arenas.{IsSorted, arena_of-Compactable}
use compactor.Compaction.Whole.Readers.{
  IsVersioned, sources-newest_at_snapshot, sources-newest-live,
}

-- A user key of one letter, a value type and a sequence number below 256.
abbrev pub packed : ℕ → ℕ → ℕ → Bytes
packed letter value_type seq = letter ∷ value_type ∷ seq ∷ 0 ∷ 0 ∷ 0 ∷ 0 ∷ 0 ∷ 0 ∷ []

abbrev pub older : List KeyValue
older = (packed b'a' 1 3, 10 ∷ []) ∷ (packed b'b' 1 2, 11 ∷ []) ∷ []

abbrev pub newer_one : List KeyValue
newer_one = (packed b'a' 1 7, 20 ∷ []) ∷ (packed b'b' 0 8, []) ∷ []

abbrev pub sources : List (List KeyValue)
sources = older ∷ newer_one ∷ []

pub sources-IsSorted : All IsSorted sources
unfolding bytes_of compare_suffixed compare_bytes from_le_bytes
sources-IsSorted = (
  record { small = omega arith; keyed = omega arith; ordered = ((refl, tt), (tt, tt)) },
  (record { small = omega arith; keyed = omega arith; ordered = ((refl, tt), (tt, tt)) }, tt),
)

pub sources-Compactable : Compactable (map arena_of sources) sources
sources-Compactable = arena_of-Compactable sources sources-IsSorted

-- The callback that collects.
abbrev pub collected : List KeyValue → Bytes → Bytes → List KeyValue
collected seen key value = seen ++ (key, value) ∷ []

-- Versions of one user key come newest first.
merge_all_run :
    merge_all arena_source internal_key_comparator collected 5 (map arena_of sources) []
    ≡ some (
      (packed b'a' 1 7, 20 ∷ [])
          ∷ (packed b'a' 1 3, 10 ∷ [])
          ∷ (packed b'b' 0 8, [])
          ∷ (packed b'b' 1 2, 11 ∷ [])
          ∷ [],
      true,
    )
unfolding merge_all new next_power_of_two power_from build_subtree less peek_at less_front
    compare_with_prefix compare_internal_keys Cmp.split compare_suffixed compare_bytes from_le_bytes
    run advance_winner replay_from_leaf replay_loop peek_arena advance_arena entry_of key val
    byte_range slice arena_of push_all build push new_builder
merge_all_run = refl

merge_all-Merged_example :
    (merged : List KeyValue) × (merge_all arena_source internal_key_comparator collected 5
        (map arena_of sources)
        []
      ≡ some (fold_entries collected [] merged, true))
    × Permᴰ merged (all_entries sources)
    × InOrder internal_key_order merged
merge_all-Merged_example =
    merge_all-Merged arena_source internal_key_order (map arena_of sources) sources
      sources-Compactable.streams sources-Compactable.keyed collected 5 []
      sources-Compactable.ordered (omega arith)

merged_output-compacted_example :
    (merged : List KeyValue) × (merged_output passthrough tt (map arena_of sources)
      ≡ some (compacted passthrough tt merged))
    × Permᴰ merged (all_entries sources)
    × IsMerged merged
merged_output-compacted_example =
    merged_output-compacted passthrough tt (map arena_of sources) sources sources-Compactable

pub sources-IsVersioned : IsVersioned (b'a' ∷ []) (all_entries sources)
unfolding sequence_of split from_le_bytes is_version bytes_eq
sources-IsVersioned = ground arith

pub sources-Covers : Covers (b'a' ∷ []) 9 (all_entries sources)
unfolding seen_by is_version split from_le_bytes bytes_eq
sources-Covers = ground arith

sources-newest_at_snapshot_example :
    (out : List Entry) × (merged_output snapshot_aware (new_snapshot_aware 5) (map arena_of sources)
      ≡ some out)
    × (newest (b'a' ∷ []) 5 out ≡ newest (b'a' ∷ []) 5 (all_entries sources))
sources-newest_at_snapshot_example =
    sources-newest_at_snapshot (b'a' ∷ []) (map arena_of sources) sources sources-Compactable
      sources-IsVersioned 5

sources-newest-live_example :
    (out : List Entry) × (merged_output bottommost tt (map arena_of sources) ≡ some out)
    × (newest (b'a' ∷ []) 9 out ≡ live (newest (b'a' ∷ []) 9 (all_entries sources)))
sources-newest-live_example =
    sources-newest-live (b'a' ∷ []) (map arena_of sources) sources sources-Compactable
      sources-IsVersioned 9 sources-Covers
