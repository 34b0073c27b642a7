-- ===== src/Merge/Heap/Pop.antt =====
-- What `pop` takes from the heap: an entry with a least key.
use compactor.Prelude.{
  ℕ, suc, ◌+◌, ◌==◌, Bytes, List, [], ◌∷◌, none, some, All, ◌≡◌, ◌≢◌, refl, arith, inl, inr, false,
  Bool-cases, ◌⊎◌, if◌then◌else◌, Ordering-cases,
}
use compactor.Merge.Cmp.{KeyComparator}
use compactor.Merge.Heap.{HeapEntry, entry_cmp, greater_of, pop}
use compactor.Merge.LoserTree.{is_less}
use compactor.Merge.LoserTree.Fronts.{IsOrder}

-- The entries of source `i` in the heap.
unfoldable pub count : ℕ → List HeapEntry → ℕ
count i [] = 0
count i (e ∷ heap) = (if e.source_idx == i then 1 else 0) + count i heap

pub count_same :
    (top : HeapEntry) (heap : List HeapEntry)
    → count top.source_idx (top ∷ heap) ≡ suc (count top.source_idx heap)
unfolding count
count_same top heap = ground arith

pub count_other :
    (i : ℕ) (top : HeapEntry) (heap : List HeapEntry)
    → top.source_idx ≢ i
    → count i (top ∷ heap) ≡ count i heap
unfolding count
count_other i top heap h = ground arith

pub counted_entry :
    (P : HeapEntry → Type 0) (i : ℕ) (heap : List HeapEntry)
    → count i heap ≢ 0
    → All P heap
    → (e : HeapEntry) × (e.source_idx ≡ i) × P e
unfolding count
counted_entry P i [] n h = absurd (n refl)
counted_entry P i (e ∷ heap) n (h, hs) = elim (Bool-cases (e.source_idx == i)) [
  | inl t ↦ (e, ground arith, h)
  | inr t ↦ counted_entry P i heap (λ z. n (rw t (omega (arith, z)))) hs
]

pub uncounted_entries :
    (P : HeapEntry → Type 0) (i : ℕ) (heap : List HeapEntry)
    → count i heap ≡ 0
    → All P heap
    → All (λ e. P e × (e.source_idx ≢ i)) heap
unfolding count
uncounted_entries P i [] n h = tt
uncounted_entries P i (e ∷ heap) n (h, hs) =
    ((h, λ same. ground arith), uncounted_entries P i heap (omega arith) hs)

module _ {c : KeyComparator} {Valid : Bytes → Type 0} (o : IsOrder c Valid) where
  -- No key of the heap is before that of `e`.
  abbrev pub NoneBefore : HeapEntry → List HeapEntry → Type 0
  NoneBefore e = All (λ x. is_less (o.order x.key e.key) ≡ false)

  self_order : (a : Bytes) → is_less (o.order a a) ≡ false
  self_order a = ground (arith, o.swap a a)

  NoneBefore-trans :
      (e top : HeapEntry) (heap : List HeapEntry)
      → is_less (o.order top.key e.key) ≡ false
      → NoneBefore top heap
      → NoneBefore e heap
  NoneBefore-trans e top [] h t = tt
  NoneBefore-trans e top (x ∷ heap) h (t, ts) =
      (o.trans e.key top.key x.key h t, NoneBefore-trans e top heap h ts)

  -- What is popped, and what is left, are the heap, and the former has a least key.
  pub record IsPopped (heap : List HeapEntry) (top : HeapEntry) (rest : List HeapEntry)
      : Type 1 where
    pub answer : pop c heap ≡ some (some (top, rest))
    pub counts : (i : ℕ) → count i heap ≡ count i (top ∷ rest)
    pub parts : (P : HeapEntry → Type 0) → All P heap → P top × All P rest
    pub least : NoneBefore top heap

  pub pop-IsPopped :
      (e : HeapEntry) (heap : List HeapEntry)
      → All (λ x. Valid x.key) (e ∷ heap)
      → (top : HeapEntry) × (rest : List HeapEntry) × IsPopped (e ∷ heap) top rest
  unfolding pop greater_of entry_cmp count
  pop-IsPopped e [] (v, vs) = (
    e,
    [],
    record { answer = refl; counts = λ i. refl; parts = λ P h. h; least = (self_order e.key, tt) },
  )
  pop-IsPopped e (e' ∷ heap) (v, vs) =
      let (top, rest, p) = pop-IsPopped e' heap vs in
      let answers = o.answers e.key top.key v (p.parts (λ x. Valid x.key) vs).0 in
      elim (Ordering-cases (o.order e.key top.key)) [
        | inr (inr gt) ↦ (
          top,
          e ∷ rest,
          record {
            answer = rw (p.answer, answers, gt) refl;
            counts = λ i. omega (arith, p.counts i);
            parts = λ P (h, hs). ((p.parts P hs).0, (h, (p.parts P hs).1));
            least = (rw gt refl, p.least);
          },
        )
        | inr (inl eq) ↦ (
          e,
          e' ∷ heap,
          record {
            answer = rw (p.answer, answers, eq) refl;
            counts = λ i. refl;
            parts = λ P h. h;
            least = (
              self_order e.key,
              NoneBefore-trans e top (e' ∷ heap) (ground (arith, o.swap e.key top.key)) p.least,
            );
          },
        )
        | inl lt ↦ (
          e,
          e' ∷ heap,
          record {
            answer = rw (p.answer, answers, lt) refl;
            counts = λ i. refl;
            parts = λ P h. h;
            least = (
              self_order e.key,
              NoneBefore-trans e top (e' ∷ heap) (ground (arith, o.swap e.key top.key)) p.least,
            );
          },
        )
      ]

  -- There is something to pop, or there is not.
  pub pop-cases :
      (heap : List HeapEntry)
      → All (λ x. Valid x.key) heap
      → ((heap ≡ []) × (pop c heap ≡ some none))
        ⊎ ((top : HeapEntry) × (rest : List HeapEntry) × IsPopped heap top rest)
  unfolding pop
  pop-cases [] v = inl (refl, refl)
  pop-cases (e ∷ heap) v = inr (pop-IsPopped e heap v)
