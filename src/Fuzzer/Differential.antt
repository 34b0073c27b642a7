-- ===== src/Fuzzer/Differential.antt =====
-- The differential test of the fuzzer, for all sources.
use compactor.Prelude.{◌^◌, ◌<◌, ◌≡◌, refl, ap, ◌∙◌, Bytes, List, some, map, arith}
use compactor.Format.Checksum.{Hashes}
use compactor.Format.SstBuilder.Build.{entries_to_write}
use compactor.Format.SstBuilder.Built.{build_sst-IsSst}
use compactor.Format.SstBuilder.Written.{weight}
use compactor.Format.Trailer.{Decompressors}
use compactor.Merge.LoserTree.Sorted.{All-perm, All-all_entries}
use compactor.Merge.Source.{KeyValue}
use compactor.Merge.Source.Arena.{arena_of}
use compactor.Merge.Streams.{all_entries}
use compactor.Compaction.Files.{compact, compact_with_strategy}
use compactor.Compaction.Files.Weight.{weight-perm, weight-compacted}
use compactor.Compaction.Loop.{compacted}
use compactor.Compaction.Strategy.{bottommost}
use compactor.Compaction.Whole.Readers.{IsVersioned}
use compactor.Compaction.Whole.Sources.{IsKeyed, Compactable, merged_output-compacted}
use compactor.Oracle.{naive_compact}
use compactor.Oracle.Agreement.{naive_compact-merged_output, compacted-All}
use compactor.Oracle.Distinct.{stripped, compacted-Ascending}
use compactor.Fuzzer.{run_compactor, fuzz_options}
use compactor.Fuzzer.Decoding.{decode_sst_entries-IsSst}
use compactor.Fuzzer.Sorting.{sort_pairs-Ascending}

-- What the fuzzer tests on random sources: for any sources in order that weigh less than 2 GiB, where
-- no two versions of a user key have the same sequence number, the compaction to the bytes of a file
-- and the decoding of these do not panic, and give just what the naive compaction returns.
pub run_compactor-naive_compact :
    (hashes : Hashes) (d : Decompressors) (ess : List (List KeyValue))
    → Compactable (map arena_of ess) ess
    → ((u : Bytes) → IsVersioned u (all_entries ess))
    → weight (all_entries ess) < 2 ^ 31
    → (out : List KeyValue) × (run_compactor hashes d ess ≡ some out)
      × (naive_compact ess ≡ some out)
unfolding run_compactor compact compact_with_strategy entries_to_write
run_compactor-naive_compact hashes d ess c versioned light =
    let sources = map arena_of ess in
    let (merged, e, p, m) = merged_output-compacted bottommost tt sources ess c in
    let (out', e', naive) = naive_compact-merged_output sources ess c versioned in
    let out = compacted bottommost tt merged in
    let same : out' ≡ out = cc in
    let keyed = All-perm IsKeyed p (All-all_entries IsKeyed ess c.keyed) in
    let written : entries_to_write fuzz_options.sst_builder.external_sst_global_seqno out
        ≡ some out =
      refl in
    let (file, built, t) =
      build_sst-IsSst hashes fuzz_options.sst_builder out out (omega arith, omega arith) written
        (omega (arith, weight-compacted bottommost tt merged, weight-perm p)) in
    (
      stripped out,
      rw (e, built)
          (decode_sst_entries-IsSst hashes fuzz_options.sst_builder d file out t
              (compacted-All bottommost tt IsKeyed merged keyed)
            ∙ ap some (sort_pairs-Ascending (stripped out) (compacted-Ascending merged keyed m))),
      rw same at naive,
    )
