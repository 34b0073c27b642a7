-- ===== src/Compaction/Files.antt =====
-- crates/compactor/src/compaction/mod.rs, whole: from sources to the bytes of the output files.
-- `none` is a panic.
pub mod Weight
pub mod Outputs
pub mod Only
pub mod Shards
pub mod Tasks
use compactor.Prelude.{ℕ, Bytes, List, [], ◌∷◌, Option, none, some, ◌>>=◌, leb, if◌then◌else◌}
use compactor.Format.Checksum.{Hashes}
use compactor.Format.Error.{Result, ok, err, shard_panicked}
use compactor.Format.Error
use compactor.Format.SstBuilder.Build.{SstBuilderOptions, build_sst}
use compactor.Merge.Source.{ArenaSource}
use compactor.Compaction.Sharding.{pick_shard_boundaries, shard_inputs}
use compactor.Compaction.Strategy.{CompactionStrategy, bottommost}
use compactor.Compaction.Whole.{merged_output}

pub record CompactionOptions : Type 0 where
  pub sst_builder : SstBuilderOptions

module _ (hashes : Hashes) where
  unfoldable pub compact_with_strategy :
      List ArenaSource
      → CompactionOptions
      → (strat : CompactionStrategy) → strat.State
      → Option Bytes
  compact_with_strategy sources opts strat s = do
    output ← merged_output strat s sources
    build_sst hashes opts.sst_builder output

  unfoldable pub compact : List ArenaSource → CompactionOptions → Option Bytes
  compact sources opts = compact_with_strategy sources opts bottommost tt

  -- The tasks of the shards in their order; one that panicked is an error.
  unfoldable pub await_tasks : CompactionOptions → List (List ArenaSource) → Result (List Bytes)
  await_tasks opts [] = ok []
  await_tasks opts (input ∷ inputs) =
      let rest = await_tasks opts inputs in
      elim (compact input opts) [
        | none ↦ err shard_panicked
        | some output ↦ Error.◌>>=◌ rest (λ outputs. ok (output ∷ outputs))
      ]

  unfoldable pub compact_sharded :
      List ArenaSource → ℕ → CompactionOptions → Option (Result (List Bytes))
  compact_sharded [] num_shards opts = do output ← compact [] opts; some (ok (output ∷ []))
  compact_sharded (source ∷ sources) num_shards opts =
      if leb num_shards 1
      then (do output ← compact (source ∷ sources) opts; some (ok (output ∷ [])))
      else (do
        boundaries ← pick_shard_boundaries (source ∷ sources) num_shards
        inputs ← shard_inputs (source ∷ sources) boundaries
        some (await_tasks opts inputs))
