-- ===== src/Examples/Compaction.antt =====
-- Runs of the compaction loop on the cases of strategy.rs's own tests.
use mathlib.Core.List.{Sublistᴰ}
use compactor.Prelude.{ℕ, List, [], ◌∷◌, Bytes, ◌≡◌, refl, inl, some}
use compactor.Format.Fixed.{from_le_bytes}
use compactor.Format.InternalKey.{split, from_byte}
use compactor.Merge.Cmp
use compactor.Merge.Cmp.{compare_internal_keys, compare_bytes, compare_suffixed}
use compactor.Compaction.Strategy.{
  bottommost, snapshot_aware, new_snapshot_aware, decide_bottommost, decide_snapshot_aware,
  is_tombstone,
}
use compactor.Compaction.Loop.{
  Entry, compacted, start, visit_all, visit, visit_split, output_after, bytes_eq,
}
use compactor.Compaction.Loop.Order.{compacted-Sublist, compacted-IsMerged}
use compactor.Compaction.Readers.{IsMerged, Covers, seen_by, is_version, live}
use compactor.Compaction.Readers.Newest.{newest, newer, sequence_of}
use compactor.Compaction.Guarantees.{
  newest_at_snapshot, newest_for_current_readers, newest-bottommost,
}

-- User key `a` or `b`, a sequence number below 256, a type.
abbrev key : ℕ → ℕ → ℕ → Bytes
key u seq type = u ∷ type ∷ seq ∷ 0 ∷ 0 ∷ 0 ∷ 0 ∷ 0 ∷ 0 ∷ []

abbrev versions : List Entry
versions =
    (key b'a' 10 1, 1 ∷ [])
    ∷ (key b'a' 7 1, 2 ∷ [])
    ∷ (key b'a' 4 0, [])
    ∷ (key b'a' 2 1, 4 ∷ [])
    ∷ (key b'b' 3 0, [])
    ∷ (key b'b' 1 1, 5 ∷ [])
    ∷ []

snapshot_aware_run :
    compacted snapshot_aware (new_snapshot_aware 5) versions
    ≡ (key b'a' 10 1, 1 ∷ []) ∷ (key b'a' 4 0, []) ∷ (key b'b' 3 0, []) ∷ []
unfolding compacted start visit_all visit visit_split output_after bytes_eq split from_byte
    from_le_bytes decide_snapshot_aware is_tombstone new_snapshot_aware
snapshot_aware_run = refl

bottommost_run : compacted bottommost tt versions ≡ (key b'a' 10 1, 1 ∷ []) ∷ []
unfolding compacted start visit_all visit visit_split output_after bytes_eq split from_byte
    from_le_bytes decide_bottommost is_tombstone
bottommost_run = refl

versions-IsMerged : IsMerged versions
unfolding compare_internal_keys compare_suffixed compare_bytes Cmp.split from_le_bytes
versions-IsMerged = (
  (inl refl, (inl refl, (inl refl, (inl refl, (inl refl, tt))))),
  (
    (inl refl, (inl refl, (inl refl, (inl refl, tt)))),
    (
      (inl refl, (inl refl, (inl refl, tt))),
      ((inl refl, (inl refl, tt)), ((inl refl, tt), (tt, tt))),
    ),
  ),
)

versions-Covers : Covers (b'a' ∷ []) 12 versions
unfolding is_version seen_by split bytes_eq from_byte from_le_bytes
versions-Covers = (λ h. h, (λ h. h, (λ h. h, (λ h. h, (λ h. h, (λ h. h, tt))))))

newest_at_snapshot_example :
    newest (b'a' ∷ []) 5 (compacted snapshot_aware (new_snapshot_aware 5) versions)
    ≡ newest (b'a' ∷ []) 5 versions
newest_at_snapshot_example = newest_at_snapshot (b'a' ∷ []) versions versions-IsMerged 5

newest_for_current_readers_example :
    newest (b'a' ∷ []) 12 (compacted snapshot_aware (new_snapshot_aware 5) versions)
    ≡ newest (b'a' ∷ []) 12 versions
newest_for_current_readers_example =
    newest_for_current_readers (b'a' ∷ []) versions versions-IsMerged 5 12 versions-Covers

newest-bottommost_example :
    newest (b'a' ∷ []) 12 (compacted bottommost tt versions) ≡ live (newest (b'a' ∷ []) 12 versions)
newest-bottommost_example =
    newest-bottommost (b'a' ∷ []) versions versions-IsMerged 12 versions-Covers

compacted-Sublist_example : Sublistᴰ (compacted bottommost tt versions) versions
compacted-Sublist_example = compacted-Sublist bottommost tt versions

compacted-IsMerged_example : IsMerged (compacted bottommost tt versions)
compacted-IsMerged_example = compacted-IsMerged bottommost tt versions versions-IsMerged

newest_run : newest (b'a' ∷ []) 5 versions ≡ some (key b'a' 4 0, [])
unfolding newest newer sequence_of seen_by split bytes_eq from_byte from_le_bytes
newest_run = refl
