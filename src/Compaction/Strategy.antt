-- ===== src/Compaction/Strategy.antt =====
-- crates/compactor/src/compaction/strategy.rs. A strategy is its state and its `decide`, which
-- takes `&mut self` and so returns the new state.
use compactor.Prelude.{ℕ, Bool, true, false, leb, if◌then◌else◌}
use compactor.Format.InternalKey.{InternalKey, ValueType, deletion, single_deletion}

pub data KeepDecision : Type 0 where
  keep drop : KeepDecision

pub record CompactionStrategy : Type 1 where
  pub State : Type 0
  pub decide : State → InternalKey → Bool → State × KeepDecision

-- `matches!(ik.value_type, ValueType::Deletion | ValueType::SingleDeletion)`
unfoldable pub is_tombstone : ValueType → Bool
is_tombstone deletion = true
is_tombstone single_deletion = true
is_tombstone _ = false

unfoldable pub decide_bottommost : Unit {0} → InternalKey → Bool → Unit {0} × KeepDecision
decide_bottommost s ik is_first_for_key =
    if is_first_for_key
    then if is_tombstone ik.value_type then (s, drop) else (s, keep)
    else (s, drop)

abbrev pub bottommost : CompactionStrategy
bottommost = record { State = Unit {0}; decide = decide_bottommost }

pub record SnapshotAware : Type 0 where
  pub snapshot_seqno : ℕ
  pub kept_visible_version_for_current_key : Bool

unfoldable pub new_snapshot_aware : ℕ → SnapshotAware
new_snapshot_aware snapshot_seqno = record {
  snapshot_seqno = snapshot_seqno;
  kept_visible_version_for_current_key = false;
}

unfoldable pub decide_snapshot_aware :
    SnapshotAware → InternalKey → Bool → SnapshotAware × KeepDecision
decide_snapshot_aware s ik is_first_for_key =
    let s =
      if is_first_for_key then record s { kept_visible_version_for_current_key = false } else s in
    let kept = record s { kept_visible_version_for_current_key = true } in
    if is_first_for_key
    then (if leb ik.sequence s.snapshot_seqno then kept else s, keep)
    else if s.kept_visible_version_for_current_key
    then (s, drop)
    else if leb ik.sequence s.snapshot_seqno
    then (kept, keep)
    else (s, drop)

abbrev pub snapshot_aware : CompactionStrategy
snapshot_aware = record { State = SnapshotAware; decide = decide_snapshot_aware }

unfoldable pub decide_passthrough : Unit {0} → InternalKey → Bool → Unit {0} × KeepDecision
decide_passthrough s ik is_first_for_key = (s, keep)

abbrev pub passthrough : CompactionStrategy
passthrough = record { State = Unit {0}; decide = decide_passthrough }
