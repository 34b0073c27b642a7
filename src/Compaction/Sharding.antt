-- ===== src/Compaction/Sharding.antt =====
-- crates/compactor/src/compaction/mod.rs: `pick_shard_boundaries`, and how `compact_sharded` cuts
-- its sources at the boundaries before the shards are compacted. `none` is a panic.
pub mod Windows
pub mod Parts
pub mod Boundaries
pub mod Inputs
use compactor.Prelude.{
  ℕ, zero, suc, ◌+◌, ◌-◌, ◌*◌, ◌/◌, Bytes, List, [], ◌∷◌, ◌++◌, Option, none, some, ◌>>=◌, length,
  min, replicate, ltb, ◌==◌, if◌then◌else◌,
}
use compactor.Merge.Source.{ArenaSource, total_len, key_at, lower_bound, shard}

-- `max_by_key(|s| s.total_len())`, which takes the last of several largest.
unfoldable pub largest_of : ArenaSource → List ArenaSource → ArenaSource
largest_of best [] = best
largest_of best (s ∷ sources) =
    if ltb (total_len s) (total_len best) then largest_of best sources else largest_of s sources

-- The `(1..num_shards).map(…)` from `i` on, for `count` more boundaries.
unfoldable pub boundaries_from : ArenaSource → ℕ → ℕ → ℕ → Option (List Bytes)
boundaries_from largest num_shards i zero = some []
boundaries_from largest num_shards i (suc count) = do
  let n = total_len largest
  boundary ← key_at largest (min (n * i / num_shards) (n - 1))
  rest ← boundaries_from largest num_shards (i + 1) count
  some (boundary ∷ rest)

unfoldable pub pick_shard_boundaries : List ArenaSource → ℕ → Option (List Bytes)
pick_shard_boundaries [] num_shards = none
pick_shard_boundaries (s ∷ sources) num_shards =
    let largest = largest_of s sources in
    if total_len largest == 0
    then some []
    else boundaries_from largest num_shards 1 (num_shards - 1)

-- The shards of one source, from index `start` on.
unfoldable pub split_source : ArenaSource → ℕ → List Bytes → Option (List ArenaSource)
split_source source start [] = do s ← shard source start (total_len source); some (s ∷ [])
split_source source start (boundary ∷ boundaries) = do
  end_ ← lower_bound source boundary
  s ← shard source start end_
  rest ← split_source source end_ boundaries
  some (s ∷ rest)

-- `shard_inputs[shard_idx].push(…)` for every shard of one source.
unfoldable pub push_each : List (List ArenaSource) → List ArenaSource → List (List ArenaSource)
push_each (input ∷ inputs) (s ∷ shards) = (input ++ s ∷ []) ∷ push_each inputs shards
push_each inputs _ = inputs

unfoldable pub push_shards :
    List Bytes → List (List ArenaSource) → List ArenaSource → Option (List (List ArenaSource))
push_shards boundaries inputs [] = some inputs
push_shards boundaries inputs (source ∷ sources) = do
  shards ← split_source source 0 boundaries
  push_shards boundaries (push_each inputs shards) sources

unfoldable pub shard_inputs : List ArenaSource → List Bytes → Option (List (List ArenaSource))
shard_inputs sources boundaries =
    push_shards boundaries (replicate (length boundaries + 1) []) sources
