-- ===== src/Examples/Sharding.antt =====
-- Two small sources, their boundaries and their shards.
use compactor.Prelude.{
  ℕ, ◌+◌, ◌-◌, ◌==◌, ◌^◌, ◌<◌, ◌≡◌, refl, Bytes, List, [], ◌∷◌, map, some, All, length, get_elem?,
  arith, take, drop, none, if◌then◌else◌,
}
use compactor.Merge.Cmp.{compare_bytes}
use compactor.Merge.Source.{
  KeyValue, ArenaSource, shard, peek_arena, peek_vec, arena_source, vec_source, new_vec_source,
}
use compactor.Merge.Source.Arena.{arena_of, bytes_of}
use compactor.Merge.Source.Shards.{advance_n, shard-vec_source}
use compactor.Merge.Source.LowerBound.{IsKey, Ascending, below, count_below}
use compactor.Compaction.Sharding.{split_source, pick_shard_boundaries, shard_inputs}
use compactor.Compaction.Sharding.Inputs.{IsInput, shard_inputs-pick_shard_boundaries}
use compactor.Compaction.Sharding.Windows.{in_window, shard_of, split_source-Placed}
use compactor.Compaction.Sharding.Boundaries.{IsSource}
use compactor.Compaction.Files.{compact_sharded}
use compactor.Compaction.Files.Shards.{home}
use compactor.Compaction.Files.Tasks.{compact_sharded-newest-live}
use compactor.Compaction.Readers.{live}
use compactor.Compaction.Readers.Newest.{newest}
use compactor.Format.Error.{ok}
use compactor.Merge.Streams.{all_entries}
use compactor.Sst.Outcome.{done}
use compactor.Sst.Reader.{load_arena_source}
use compactor.Sst.RoundTrip.{reader_of}
use compactor.Examples.File.{sums, no_decompressors}
use compactor.Examples.Sst.{plain_options}
use compactor.Examples.Whole.{
  older, newer_one, sources, sources-IsSorted, sources-IsVersioned, sources-Covers,
}

-- The key of a put with sequence number `seq`.
abbrev packed : ℕ → ℕ → Bytes
packed letter seq = letter ∷ 1 ∷ seq ∷ 0 ∷ 0 ∷ 0 ∷ 0 ∷ 0 ∷ 0 ∷ []

abbrev left_source : List KeyValue
left_source =
    (packed b'a' 3, 10 ∷ [])
    ∷ (packed b'b' 9, 11 ∷ [])
    ∷ (packed b'b' 2, [])
    ∷ (packed b'c' 1, 12 ∷ [])
    ∷ []

abbrev right_source : List KeyValue
right_source = (packed b'b' 5, 20 ∷ []) ∷ []

left_small : length (bytes_of left_source) < 2 ^ 32
unfolding bytes_of
left_small = omega arith

left_keys : All IsKey (map (λ e. e.0) left_source)
left_keys = (omega arith, (omega arith, (omega arith, (omega arith, tt))))

left-Ascending : Ascending (map (λ e. e.0) left_source)
unfolding below compare_bytes
left-Ascending = ((refl, (refl, (refl, tt))), ((refl, (refl, tt)), ((refl, tt), (tt, tt))))

left_IsSource : IsSource left_source
left_IsSource = record { small = left_small; keys = left_keys; ascending = left-Ascending }

right_IsSource : IsSource right_source
unfolding bytes_of
right_IsSource = record { small = omega arith; keys = (omega arith, tt); ascending = (tt, tt) }

shard-vec_source_example :
    (s : ArenaSource) × (shard (arena_of left_source) 1 3 ≡ some s)
    × (peek_arena (advance_n arena_source 1 s)
        ≡ peek_vec (advance_n vec_source 1 (new_vec_source (take (3 - 1) (drop 1 left_source)))))
shard-vec_source_example = shard-vec_source left_source 1 3 1 left_small (omega arith) (omega arith)

-- The boundary falls between no two versions of a user key.
count_run : count_below (packed b'b' 5) left_source ≡ 1
unfolding count_below below compare_bytes
count_run = refl

split_source-Placed_example :
    (shards : List ArenaSource) × (split_source (arena_of left_source) 0 (packed b'b' 5 ∷ [])
      ≡ some shards)
    × ((i : ℕ) (e : KeyValue)
        → get_elem? left_source i ≡ some e
        → (j : ℕ) (s : ArenaSource) → get_elem? shards j ≡ some s
        → in_window i s ≡ shard_of (packed b'b' 5 ∷ []) e.0 == j)
split_source-Placed_example =
    split_source-Placed left_source left_small left_keys left-Ascending (packed b'b' 5 ∷ [])
      (omega arith, tt) (tt, tt)

shard_inputs-pick_shard_boundaries_example :
    (bs : List Bytes) × (inputs : List (List ArenaSource)) × (pick_shard_boundaries
        (map arena_of (left_source ∷ right_source ∷ []))
        2
      ≡ some bs)
    × (shard_inputs (map arena_of (left_source ∷ right_source ∷ [])) bs ≡ some inputs)
    × (length inputs ≡ length bs + 1)
    × ((j : ℕ) (input : List ArenaSource)
        → get_elem? inputs j ≡ some input
        → IsInput bs j (left_source ∷ right_source ∷ []) input)
shard_inputs-pick_shard_boundaries_example =
    shard_inputs-pick_shard_boundaries (left_source ∷ right_source ∷ []) 2 (omega arith)
      (omega arith) (left_IsSource, (right_IsSource, tt))

older-IsSource : IsSource older
unfolding bytes_of below compare_bytes
older-IsSource = record {
  small = omega arith;
  keys = (omega arith, (omega arith, tt));
  ascending = ((refl, tt), (tt, tt));
}

newer_one-IsSource : IsSource newer_one
unfolding bytes_of below compare_bytes
newer_one-IsSource = record {
  small = omega arith;
  keys = (omega arith, (omega arith, tt));
  ascending = ((refl, tt), (tt, tt));
}

compact_sharded-newest-live_example :
    (bs : List Bytes) × (files : List Bytes) × (pick_shard_boundaries (map arena_of sources) 2
      ≡ some bs)
    × (compact_sharded sums (map arena_of sources) 2 plain_options ≡ some (ok files))
    × (length files ≡ length bs + 1)
    × ((j : ℕ) (file : Bytes)
        → get_elem? files j ≡ some file
        → (out : List KeyValue) × (load_arena_source sums no_decompressors (reader_of file)
            ≡ done (arena_of out))
          × (newest (b'a' ∷ []) 9 out ≡ (
              if home bs (b'a' ∷ []) == j
              then live (newest (b'a' ∷ []) 9 (all_entries sources))
              else none)))
compact_sharded-newest-live_example =
    compact_sharded-newest-live sums no_decompressors plain_options
      ((omega arith, omega arith), refl) sources (older-IsSource, (newer_one-IsSource, tt))
      sources-IsSorted (omega arith) (b'a' ∷ []) 9 sources-IsVersioned sources-Covers 2
      (omega arith) (omega arith)
