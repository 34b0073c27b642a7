-- ===== src/Merge/LoserTree/Merging.antt =====
-- A whole merge: `LoserTreeMerger::new(sources)`, then `run`.
use native.Mathlib.Nat.{pow-suc}
use compactor.Prelude.{
  ℕ, zero, suc, ◌^◌, ◌<◌, Bool, Bytes, List, Option, some, ◌>>=◌, length, All, ◌≡◌, refl, arith,
  max, replicate, length-replicate,
}
use compactor.Merge.Source.{KeyValue, MergeSource}
use compactor.Merge.Cmp.{KeyComparator}
use compactor.Merge.LoserTree.{LoserTreeMerger, none_yet, next_power_of_two, new, run}
use compactor.Merge.LoserTree.Fronts.{IsOrder, before_asym}
use compactor.Merge.LoserTree.Build.{build_subtree-Built, next_power_of_two_lem}
use compactor.Merge.LoserTree.Run.{AllValid, less-ahead, IsReady, InOrder}
use compactor.Merge.LoserTree.Sorted.{Merged, run-Merged}
use compactor.Merge.Streams.{AllStream, AllStream-length, all_entries, front}

unfoldable pub merge_all :
    {S : Type 0} (src : MergeSource)
    → KeyComparator
    → (S → Bytes → Bytes → S)
    → ℕ
    → List src.State
    → S
    → Option (S × Bool)
merge_all src c f fuel sources st = do m ← new src c sources; run src c f fuel m st

lt-pow : (h : ℕ) → h < 2 ^ h
lt-pow zero = omega arith
lt-pow (suc h) = omega (arith, pow-suc 2 h, lt-pow h)

module _ (src : MergeSource) {c : KeyComparator} {Valid : Bytes → Type 0} (o : IsOrder c Valid)
    (sources : List src.State) (ess : List (List KeyValue)) (streams : AllStream src sources ess)
    (valid : AllValid src o ess) where
  new-IsReady : (m : LoserTreeMerger src) × (new src c sources ≡ some m) × IsReady src o m ess
  unfolding new
  new-IsReady =
      let (h, e, enough) = next_power_of_two_lem (max (length sources) 1) in
      let k = next_power_of_two (max (length sources) 1) in
      let (tree, w, e', t, _, _) =
        build_subtree-Built src c sources (λ a b. less-ahead src o sources ess a b streams valid)
          (λ a b. before_asym o (front ess a) (front ess b)) k h (suc k) 1 (replicate k none_yet)
          (omega (arith, e, lt-pow h)) (omega arith) (length-replicate k none_yet)
          (omega (arith, e)) (omega (arith, e)) in
      (
        record { sources = sources; tree = tree; winner = w; k_padded = k },
        rw e' refl,
        record {
          height = h;
          streams = streams;
          valid = valid;
          padded = e;
          enough = omega (arith, enough, AllStream-length src sources ess streams);
          tourney = t;
        },
      )

  module _ {S : Type 0} (f : S → Bytes → Bytes → S) where
    -- Where each source is in order, and the comparator answers as a total order on the keys of the
    -- sources, no call of the merge panics, and its loop ends on every fuel above the number of
    -- entries of the sources. The callback has then been called, in turn, on all entries of the
    -- sources, each as often as it occurs, in order.
    pub merge_all-Merged :
        (fuel : ℕ) (st : S)
        → All (InOrder o) ess
        → length (all_entries ess) < fuel
        → Merged o src f ess st (merge_all src c f fuel sources st)
    unfolding merge_all
    merge_all-Merged fuel st t h =
        let (m, e, r) = new-IsReady in rw e (run-Merged o src f fuel m ess st r t h)
