-- ===== src/Merge/Heap/Ready.antt =====
-- The heap between two rounds: the front elements of the sources, one for each that has one.
use compactor.Prelude.{
  ℕ, zero, suc, ◌+◌, ◌==◌, false, Bytes, List, [], ◌∷◌, Option, none, some, get_elem?, set, All,
  ◌≡◌, ◌≢◌, refl, sym, ap, ◌∙◌, inl, inr, arith, Bool-cases, Option-cases, get_elem?-some_lt, subst,
  if◌then◌else◌,
}
use compactor.Merge.Cmp.{KeyComparator}
use compactor.Merge.Heap.{HeapEntry, HeapMerger, push_front, next_entry}
use compactor.Merge.Heap.Pop.{
  count, counted_entry, count_same, count_other, uncounted_entries, IsPopped,
}
use compactor.Merge.LoserTree.{is_less}
use compactor.Merge.LoserTree.Fronts.{IsOrder, before, IsValidFront}
use compactor.Merge.LoserTree.Run.{AllValid, AllValid-set, valid_front}
use compactor.Merge.Source.{KeyValue, MergeSource}
use compactor.Merge.Streams.{
  Streams, AllStream, front, AllStream-length, AllStream-at, AllStream-set, Streams-advance,
  Streams-peek, front-set_other,
}

-- The entry is the front element of its source.
abbrev pub IsFront : List (List KeyValue) → HeapEntry → Type 0
IsFront ess e = (v : Bytes) × (front ess e.source_idx ≡ some (e.key, v))

abbrev pub has : Option KeyValue → ℕ
has none = 0
has (some e) = 1

pub has-zero : (a : Option KeyValue) → has a ≡ 0 → a ≡ none
has-zero none h = refl
has-zero (some e) h = absurd (omega arith)

pub count-push_front :
    (i j : ℕ) (a : Option KeyValue) (heap : List HeapEntry)
    → count j (push_front i a heap) ≡ (if i == j then has a else 0) + count j heap
unfolding count push_front
count-push_front i j none heap = ground arith
count-push_front i j (some (k, v)) heap = refl

pub push_front-All :
    (P : HeapEntry → Type 0) (i : ℕ) (a : Option KeyValue) (heap : List HeapEntry)
    → ((k v : Bytes) → a ≡ some (k, v) → P (record { source_idx = i; key = k }))
    → All P heap
    → All P (push_front i a heap)
unfolding push_front
push_front-All P i none heap h t = t
push_front-All P i (some (k, v)) heap h t = (h k v refl, t)

both :
    (P Q : HeapEntry → Type 0) (heap : List HeapEntry)
    → All P heap
    → All Q heap
    → All (λ e. P e × Q e) heap
both P Q [] p q = tt
both P Q (e ∷ heap) (p, ps) (q, qs) = ((p, q), both P Q heap ps qs)

pub weaken :
    (P Q : HeapEntry → Type 0) (heap : List HeapEntry)
    → ((e : HeapEntry) → P e → Q e)
    → All P heap
    → All Q heap
weaken P Q [] f p = tt
weaken P Q (e ∷ heap) f (p, ps) = (f e p, weaken P Q heap f ps)

pub front-set_self :
    (ess : List (List KeyValue)) (i : ℕ) (es : List KeyValue) {old : List KeyValue}
    → get_elem? ess i ≡ some old
    → front (set ess i es) i ≡ get_elem? es 0
front-set_self [] i es h = cc
front-set_self (_ ∷ ess) zero es h = refl
front-set_self (_ ∷ ess) (suc i) es h = front-set_self ess i es h

module _ (src : MergeSource) {c : KeyComparator} {Valid : Bytes → Type 0}
    (o : IsOrder c Valid) where
  pub record IsHeapReady (m : HeapMerger src) (ess : List (List KeyValue)) : Type 0 where
    pub streams : AllStream src m.sources ess
    pub valid : AllValid src o ess
    pub sound : All (IsFront ess) m.heap
    pub counts : (i : ℕ) → count i m.heap ≡ has (front ess i)

  module _ (m : HeapMerger src) (ess : List (List KeyValue)) (r : IsHeapReady m ess) where
    pub valid_keys : All (λ e. Valid e.key) m.heap
    valid_keys =
        weaken (IsFront ess) (λ e. Valid e.key) m.heap
          (λ e (v, f). subst (IsValidFront o) f (valid_front src o ess e.source_idx r.valid))
          r.sound

    module _ (top : HeapEntry) (rest : List HeapEntry) (p : IsPopped o m.heap top rest) where
      -- No source has a front element before the popped one.
      pub popped_first : (j : ℕ) → before o (front ess j) (front ess top.source_idx) ≡ false
      popped_first j =
          let (v, at_top) = (p.parts (IsFront ess) r.sound).0 in
          elim (Option-cases (front ess j)) [
            | inl e ↦ rw e refl
            | inr (a, e) ↦
                let (x, same, ((w, at), least)) =
                  counted_entry (λ x. IsFront ess x × (is_less (o.order x.key top.key) ≡ false)) j
                    m.heap (λ z. omega (arith, z, r.counts j, ap has e))
                    (both (IsFront ess) (λ x. is_less (o.order x.key top.key) ≡ false) m.heap
                      r.sound p.least) in
                rw (sym same, at, at_top) least
          ]

      rest_uncounted : count top.source_idx rest ≡ 0
      rest_uncounted =
          let (v, at_top) = (p.parts (IsFront ess) r.sound).0 in
          omega (
            arith,
            count_same top rest,
            p.counts top.source_idx,
            r.counts top.source_idx,
            ap has at_top,
          )

      rest_counts : (j : ℕ) → top.source_idx ≢ j → count j rest ≡ has (front ess j)
      rest_counts j h = omega (arith, count_other j top rest h, p.counts j, r.counts j)

      -- What is left of the heap is of other sources.
      rest_others : All (λ e. IsFront ess e × (e.source_idx ≢ top.source_idx)) rest
      rest_others =
          uncounted_entries (IsFront ess) top.source_idx rest rest_uncounted
            (p.parts (IsFront ess) r.sound).1

      pub next_entry-IsHeapReady :
          (e : KeyValue) (es : List KeyValue)
          → get_elem? ess top.source_idx ≡ some (e ∷ es)
          → (m' : HeapMerger src) × (next_entry src m.sources top.source_idx rest ≡ some (e, m'))
            × IsHeapReady m' (set ess top.source_idx es)
      unfolding next_entry
      next_entry-IsHeapReady e es h =
          let i = top.source_idx in
          let n = AllStream-length src m.sources ess r.streams in
          let (s, l, at, at', _, streams) =
            AllStream-at src m.sources ess i r.streams
              (omega (arith, n, get_elem?-some_lt ess i h)) in
          let same : l ≡ e ∷ es = cc in
          let streams' = subst (Streams src s) same streams in
          let after = Streams-advance src s e es streams' in
          let fr = front-set_self ess i es h in
          (
            record {
              sources = set m.sources i (src.advance s);
              heap = push_front i (get_elem? es 0) rest;
            },
            rw (at, Streams-peek src s (e ∷ es) streams', Streams-peek src (src.advance s) es after)
                refl,
            record {
              streams = AllStream-set src m.sources ess i (src.advance s) es r.streams after;
              valid = AllValid-set src o ess i e es h r.valid;
              sound =
                  push_front-All (IsFront (set ess i es)) i (get_elem? es 0) rest
                    (λ k v f. (v, fr ∙ f))
                    (weaken (λ e. IsFront ess e × (e.source_idx ≢ i)) (IsFront (set ess i es)) rest
                      (λ x ((v, f), other). (v, front-set_other ess i x.source_idx es other ∙ f))
                      rest_others);
              counts = λ j.
                  count-push_front i j (get_elem? es 0) rest ∙ elim (Bool-cases (i == j)) [
                    | inl t ↦
                        let ji : j ≡ i = ground arith in
                        rw (t, ji) (omega (arith, rest_uncounted, ap has fr))
                    | inr t ↦
                        let ij : i ≢ j = ground arith in
                        rw t (
                          omega (
                            arith,
                            rest_counts j ij,
                            ap has (front-set_other ess i j es (λ x. ij (sym x))),
                          ))
                  ];
            },
          )
