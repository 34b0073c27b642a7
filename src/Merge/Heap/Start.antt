-- ===== src/Merge/Heap/Start.antt =====
-- `HeapMerger::new` pushes the front element of every source that has one.
use compactor.Prelude.{
  ℕ, zero, suc, ◌+◌, ◌==◌, ◌<◌, Bytes, List, [], ◌∷◌, some, get_elem?, All, ◌≡◌, refl, sym, arith,
  if◌then◌else◌, subst,
}
use compactor.Merge.Cmp.{KeyComparator}
use compactor.Merge.Heap.{HeapEntry, HeapMerger, push_front, push_fronts, new_heap_merger}
use compactor.Merge.Heap.Pop.{count}
use compactor.Merge.Heap.Ready.{IsFront, has, count-push_front, push_front-All, IsHeapReady}
use compactor.Merge.LoserTree.Fronts.{IsOrder}
use compactor.Merge.LoserTree.Run.{AllValid}
use compactor.Merge.Source.{KeyValue, MergeSource}
use compactor.Merge.Streams.{AllStream, front, Streams-peek}

-- The entries of source `j` that are pushed for the sources from `idx` on.
pushed : ℕ → List (List KeyValue) → ℕ → ℕ
pushed idx [] j = 0
pushed idx (es ∷ ess) j = (if idx == j then has (get_elem? es 0) else 0) + pushed (idx + 1) ess j

pushed_below : (idx : ℕ) (ess : List (List KeyValue)) (j : ℕ) → j < idx → pushed idx ess j ≡ 0
unfolding pushed
pushed_below idx [] j h = refl
pushed_below idx (es ∷ ess) j h = ground (arith, pushed_below (idx + 1) ess j (omega arith))

pushed-front :
    (idx : ℕ) (ess : List (List KeyValue)) (n : ℕ) → pushed idx ess (idx + n) ≡ has (front ess n)
unfolding pushed
pushed-front idx [] n = refl
pushed-front idx (es ∷ ess) zero =
    ground (arith, pushed_below (idx + 1) ess (idx + 0) (omega arith))
pushed-front idx (es ∷ ess) (suc n) =
    let e : (idx + 1) + n ≡ idx + suc n = omega arith in
    let ih =
      subst (λ k. pushed (idx + 1) ess k ≡ has (front ess n)) e (pushed-front (idx + 1) ess n) in
    ground (arith, ih)

module _ (src : MergeSource) where
  push_fronts-pushed :
      (idx : ℕ) (sources : List src.State) (ess : List (List KeyValue)) (heap : List HeapEntry)
      (P : HeapEntry → Type 0)
      → AllStream src sources ess
      → ((n : ℕ) (k v : Bytes)
          → front ess n ≡ some (k, v)
          → P (record { source_idx = idx + n; key = k }))
      → All P heap
      → (heap' : List HeapEntry) × (push_fronts src idx sources heap ≡ some heap')
        × All P heap'
        × ((j : ℕ) → count j heap' ≡ pushed idx ess j + count j heap)
  unfolding push_fronts pushed
  push_fronts-pushed idx [] [] heap P t h hs = (heap, refl, hs, λ j. omega arith)
  push_fronts-pushed idx [] (es ∷ ess) heap P t h hs = absurd t
  push_fronts-pushed idx (s ∷ sources) [] heap P t h hs = absurd t
  push_fronts-pushed idx (s ∷ sources) (es ∷ ess) heap P (t, ts) h hs =
      let first =
        push_front-All P idx (get_elem? es 0) heap
          (λ k v f. at idx (idx + 0) k (omega arith) (h 0 k v f)) hs in
      let (heap', e, all, counts) =
        push_fronts-pushed (idx + 1) sources ess (push_front idx (get_elem? es 0) heap) P ts
          (λ n k v f. at (idx + 1 + n) (idx + suc n) k (omega arith) (h (suc n) k v f)) first in
      (
        heap',
        rw (Streams-peek src s es t) e,
        all,
        λ j. omega (arith, counts j, count-push_front idx j (get_elem? es 0) heap),
      )
    where
      at :
          (i i' : ℕ) (k : Bytes)
          → i' ≡ i
          → P (record { source_idx = i'; key = k })
          → P (record { source_idx = i; key = k })
      at i i' k e = subst (λ x. P (record { source_idx = x; key = k })) e

  module _ {c : KeyComparator} {Valid : Bytes → Type 0} (o : IsOrder c Valid) where
    pub new_heap_merger-IsHeapReady :
        (sources : List src.State) (ess : List (List KeyValue))
        → AllStream src sources ess
        → AllValid src o ess
        → (m : HeapMerger src) × (new_heap_merger src sources ≡ some m) × IsHeapReady src o m ess
    unfolding new_heap_merger count
    new_heap_merger-IsHeapReady sources ess t v =
        let (heap, e, all, counts) =
          push_fronts-pushed 0 sources ess [] (IsFront ess) t
            (λ n k v f. (v, subst (λ x. front ess x ≡ some (k, v)) (zero_add n) f)) tt in
        (
          record { sources = sources; heap = heap },
          rw e refl,
          record {
            streams = t;
            valid = v;
            sound = all;
            counts = λ i. omega (arith, counts i, starts i);
          },
        )
      where
        zero_add : (n : ℕ) → n ≡ 0 + n
        zero_add n = omega arith

        starts : (i : ℕ) → pushed 0 ess i ≡ has (front ess i)
        starts i =
            subst (λ x. pushed 0 ess x ≡ has (front ess i)) (sym (zero_add i))
              (pushed-front 0 ess i)
