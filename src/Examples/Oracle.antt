-- ===== src/Examples/Oracle.antt =====
-- The naive compaction of two small sources, run and by the theorems.
use compactor.Prelude.{Bytes, List, [], ◌∷◌, map, some, ◌≡◌, refl, arith, ℕ}
use compactor.Format.Fixed.{from_le_bytes}
use compactor.Format.InternalKey.{split}
use compactor.Merge.Cmp.{compare_bytes}
use compactor.Merge.Source.{KeyValue}
use compactor.Merge.Source.Arena.{arena_of}
use compactor.Merge.Streams.{all_entries}
use compactor.Compaction.Loop.{Entry}
use compactor.Compaction.Readers.{Covers, live}
use compactor.Compaction.Readers.Newest.{newest, sequence_of}
use compactor.Compaction.Strategy.{bottommost}
use compactor.Compaction.Whole.{merged_output}
use compactor.Compaction.Whole.Readers.{IsVersioned}
use compactor.Oracle.{
  naive_compact, record_sources, record_source, record_version, decode_suffix, type_of, hides_key,
  keep_newest, get, insert, survivors,
}
use compactor.Oracle.TreeMap.{Ascending, find}
use compactor.Oracle.Lookup.{value_of, naive_compact-find}
use compactor.Oracle.Distinct.{stripped}
use compactor.Oracle.Agreement.{naive_compact-merged_output}
use compactor.Examples.Whole.{sources, sources-Compactable}

-- The tombstone of `b` hides its older version.
naive_compact_run : naive_compact sources ≡ some ((b'a' ∷ [], 20 ∷ []) ∷ [])
unfolding naive_compact record_sources record_source record_version decode_suffix type_of hides_key
    keep_newest get insert survivors compare_bytes from_le_bytes
naive_compact_run = refl

pub versioned : (u : Bytes) → IsVersioned u (all_entries sources)
unfolding sequence_of split from_le_bytes
versioned u = ground arith

naive_compact-merged_output_example :
    (out : List Entry) × (merged_output bottommost tt (map arena_of sources) ≡ some out)
    × (naive_compact sources ≡ some (stripped out))
naive_compact-merged_output_example =
    naive_compact-merged_output (map arena_of sources) sources sources-Compactable versioned

naive_compact-find_example :
    (out : List KeyValue) × (naive_compact sources ≡ some out)
    × Ascending out
    × ((u : Bytes) (r : ℕ)
        → Covers u r (all_entries sources)
        → find out u ≡ value_of (live (newest u r (all_entries sources))))
naive_compact-find_example = naive_compact-find sources sources-Compactable.keyed
