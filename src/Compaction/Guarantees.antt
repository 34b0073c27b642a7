-- ===== src/Compaction/Guarantees.antt =====
-- crates/compactor/src/compaction, its promises to readers: the strategies under
-- `compact_with_strategy`'s loop, against the versions that readers see.
use compactor.Prelude.{ℕ, Bytes, List, ◌≡◌, sym, ap, ◌∙◌}
use compactor.Compaction.Strategy.{bottommost, snapshot_aware, new_snapshot_aware}
use compactor.Compaction.Loop.{Entry, compacted}
use compactor.Compaction.Loop.Order.{compacted-IsMerged}
use compactor.Compaction.Loop.Snapshot.{compacted-visible}
use compactor.Compaction.Loop.Current.{snapshot_aware-KeepsNewest, compacted-visible_covered}
use compactor.Compaction.Loop.Bottommost.{compacted-live}
use compactor.Compaction.Readers.{Covers, IsMerged, live}
use compactor.Compaction.Readers.Newest.{newest, visible-newest}

module _ (u : Bytes) (merged : List Entry) (m : IsMerged merged) where
  -- On a merge output in order, `SnapshotAwareStrategy` with snapshot number `snapshot` leaves,
  -- for every user key, the newest version up to that number: a reader at the snapshot finds in
  -- the output the entry, tombstones included, that it finds in the input, or none in both.
  pub newest_at_snapshot :
      (snapshot : ℕ)
      → newest u snapshot (compacted snapshot_aware (new_snapshot_aware snapshot) merged)
        ≡ newest u snapshot merged
  newest_at_snapshot snapshot =
      sym (visible-newest u snapshot _ (compacted-IsMerged snapshot_aware _ merged m))
      ∙ compacted-visible u snapshot merged
      ∙ visible-newest u snapshot merged m

  -- On a merge output in order, `SnapshotAwareStrategy` leaves, whatever its snapshot, the newest
  -- version of every user key to a reader that is at least as new as all versions of that key.
  pub newest_for_current_readers :
      (snapshot r : ℕ)
      → Covers u r merged
      → newest u r (compacted snapshot_aware (new_snapshot_aware snapshot) merged)
        ≡ newest u r merged
  newest_for_current_readers snapshot r c =
      sym (visible-newest u r _ (compacted-IsMerged snapshot_aware _ merged m))
      ∙ compacted-visible_covered snapshot_aware snapshot_aware-KeepsNewest u r _ merged c
      ∙ visible-newest u r merged m

  -- On a merge output in order, `BottommostStrategy` leaves to a reader that is at least as new
  -- as all versions of a user key the newest of them, or nothing where that is a tombstone.
  pub newest-bottommost :
      (r : ℕ)
      → Covers u r merged
      → newest u r (compacted bottommost tt merged) ≡ live (newest u r merged)
  newest-bottommost r c =
      sym (visible-newest u r _ (compacted-IsMerged bottommost tt merged m))
      ∙ compacted-live u r merged c m
      ∙ ap live (visible-newest u r merged m)
