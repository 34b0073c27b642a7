-- ===== src/Merge/Heap/Merging.antt =====
-- What `HeapMerger` hands to its callback: all entries of its sources, in order.
use compactor.Prelude.{
  ℕ, zero, suc, ◌<◌, Bytes, List, [], ◌∷◌, some, get_elem?, length, All, ◌≡◌, sym, ap, ◌∙◌, inl,
  inr, arith, set,
}
use compactor.Merge.Cmp.{KeyComparator}
use compactor.Merge.Heap.{HeapMerger, run_heap, heap_merge_all}
use compactor.Merge.Heap.Pop.{count, pop-cases}
use compactor.Merge.Heap.Ready.{
  IsFront, has-zero, IsHeapReady, valid_keys, popped_first, next_entry-IsHeapReady,
}
use compactor.Merge.Heap.Start.{new_heap_merger-IsHeapReady}
use compactor.Merge.LoserTree.Fronts.{IsOrder}
use compactor.Merge.LoserTree.Run.{AllValid, InOrder}
use compactor.Merge.LoserTree.Sorted.{Merged, Merged-empty, Merged-cons, All-set, All-at}
use compactor.Merge.Source.{KeyValue, MergeSource}
use compactor.Merge.Streams.{AllStream, all_entries, all_entries-empty, front, length-all_entries}

-- A list with a front element is its source's.
front-get_elem? :
    (ess : List (List KeyValue)) (i : ℕ) (k v : Bytes)
    → front ess i ≡ some (k, v)
    → (es : List KeyValue) × (get_elem? ess i ≡ some ((k, v) ∷ es))
front-get_elem? [] i k v h = cc
front-get_elem? ([] ∷ ess) zero k v h = cc
front-get_elem? ((e ∷ es) ∷ ess) zero k v h = (es, cc)
front-get_elem? (es ∷ ess) (suc i) k v h = front-get_elem? ess i k v h

module _ (src : MergeSource) {c : KeyComparator} {Valid : Bytes → Type 0} (o : IsOrder c Valid)
    {S : Type 0} (f : S → Bytes → Bytes → S) where
  nothing_left :
      (m : HeapMerger src) (ess : List (List KeyValue))
      → IsHeapReady src o m ess
      → m.heap ≡ []
      → all_entries ess ≡ []
  unfolding count
  nothing_left m ess r h =
      all_entries-empty ess (λ i _. has-zero (front ess i) (sym (r.counts i) ∙ ap (count i) h))

  pub run_heap-Merged :
      (fuel : ℕ) (m : HeapMerger src) (ess : List (List KeyValue)) (st : S)
      → IsHeapReady src o m ess
      → All (InOrder o) ess
      → length (all_entries ess) < fuel
      → Merged o src f ess st (run_heap src c f fuel m st)
  unfolding run_heap
  run_heap-Merged zero m ess st r t h = absurd (omega arith)
  run_heap-Merged (suc fuel) m ess st r t h = elim (pop-cases o m.heap (valid_keys src o m ess r)) [
    | inl (empty, e) ↦ rw (e, run_heap) (Merged-empty o src f ess st (nothing_left m ess r empty))
    | inr (top, rest, p) ↦
        let i = top.source_idx in
        let (v, at_top) = (p.parts (IsFront ess) r.sound).0 in
        let (es, at) = front-get_elem? ess i top.key v at_top in
        let (m', e, r') = next_entry-IsHeapReady src o m ess r top rest p (top.key, v) es at in
        let t' =
          All-set (InOrder o) ess i es t (All-at (InOrder o) ess i ((top.key, v) ∷ es) t at).1 in
        let n = length-all_entries ess i (top.key, v) es at in
        rw (p.answer, e, run_heap)
          (Merged-cons o src f ess i top.key v es st _ at at_top t
            (popped_first src o m ess r top rest p)
            (run_heap-Merged fuel m' (set ess i es) (f st top.key v) r' t' (omega (arith, n))))
  ]

  -- Where each source is in order, and the comparator answers as a total order on the keys of the
  -- sources, no call of the heap merge panics, and its loop ends on every fuel above the number of
  -- entries of the sources. The callback has then been called, in turn, on all entries of the
  -- sources, each as often as it occurs, in order.
  pub heap_merge_all-Merged :
      (sources : List src.State) (ess : List (List KeyValue))
      → AllStream src sources ess
      → AllValid src o ess
      → (fuel : ℕ) (st : S) → All (InOrder o) ess
      → length (all_entries ess) < fuel
      → Merged o src f ess st (heap_merge_all src c f fuel sources st)
  unfolding heap_merge_all
  heap_merge_all-Merged sources ess streams valid fuel st t h =
      let (m, e, r) = new_heap_merger-IsHeapReady src o sources ess streams valid in
      rw e (run_heap-Merged fuel m ess st r t h)
