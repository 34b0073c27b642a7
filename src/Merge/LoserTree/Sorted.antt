-- ===== src/Merge/LoserTree/Sorted.antt =====
-- What `LoserTreeMerger` hands to its callback: all entries of its sources, in order.
use mathlib.Core.List.{Permᴰ}
use mathlib.Core.List.Permᴰ
use compactor.Prelude.{
  ℕ, zero, suc, ◌<◌, Bool, true, false, Bytes, List, [], ◌∷◌, ◌++◌, Option, none, some, length,
  get_elem?, set, All, ◌≡◌, refl, sym, inl, inr, arith, Bool-cases, leb, leb→le, subst,
}
use compactor.Format.Block.Entries.{fold_entries}
use compactor.Merge.Source.{KeyValue, MergeSource}
use compactor.Merge.Cmp.{KeyComparator}
use compactor.Merge.LoserTree.{LoserTreeMerger, run}
use compactor.Merge.LoserTree.Fronts.{IsOrder, before}
use compactor.Merge.LoserTree.Run.{IsReady, winner_first, advance_winner-IsReady, NotAfter, InOrder}
use compactor.Merge.Streams.{
  Streams, all_entries, front, AllStream-length, AllStream-at, Streams-peek, front-none_ge,
  all_entries-empty, all_entries-take, length-all_entries,
}

pub All-perm : (P : KeyValue → Type 0) {xs ys : List KeyValue} → Permᴰ xs ys → All P ys → All P xs
All-perm P Permᴰ.nil h = h
All-perm P (Permᴰ.cons e p) (h, hs) = (subst P (sym e) h, All-perm P p hs)
All-perm P (Permᴰ.swap e e') (h, (h', hs)) = (subst P (sym e) h', (subst P (sym e') h, hs))
All-perm P (Permᴰ.trans p q) h = All-perm P p (All-perm P q h)

All-append :
    (P : KeyValue → Type 0) (xs ys : List KeyValue) → All P xs → All P ys → All P (xs ++ ys)
All-append P [] ys h hs = hs
All-append P (x ∷ xs) ys (h, hs) t = (h, All-append P xs ys hs t)

pub All-all_entries :
    (P : KeyValue → Type 0) (ess : List (List KeyValue)) → All (All P) ess → All P (all_entries ess)
All-all_entries P [] h = tt
All-all_entries P (es ∷ ess) (h, hs) =
    All-append P es (all_entries ess) h (All-all_entries P ess hs)

module _ (P : List KeyValue → Type 0) where
  pub All-set :
      (ess : List (List KeyValue)) (i : ℕ) (es : List KeyValue)
      → All P ess
      → P es
      → All P (set ess i es)
  All-set [] i es h p = tt
  All-set (_ ∷ ess) zero es (_, hs) p = (p, hs)
  All-set (_ ∷ ess) (suc i) es (h, hs) p = (h, All-set ess i es hs p)

  pub All-at :
      (ess : List (List KeyValue)) (i : ℕ) (es : List KeyValue)
      → All P ess
      → get_elem? ess i ≡ some es
      → P es
  All-at [] i es h e = cc
  All-at (es' ∷ ess) zero es (h, hs) e = let same : es' ≡ es = cc in subst P same h
  All-at (es' ∷ ess) (suc i) es (h, hs) e = All-at ess i es hs e

module _ {c : KeyComparator} {Valid : Bytes → Type 0} (o : IsOrder c Valid) where
  NotAfter-All :
      (e x : KeyValue) (es : List KeyValue)
      → NotAfter o e x
      → All (NotAfter o x) es
      → All (NotAfter o e) es
  NotAfter-All e x [] h t = tt
  NotAfter-All e x (y ∷ es) h (t, ts) = (o.trans e.0 x.0 y.0 h t, NotAfter-All e x es h ts)

  -- An element that is not after the first of each list is not after any.
  first_among :
      (e : KeyValue) (ess : List (List KeyValue))
      → All (InOrder o) ess
      → ((i : ℕ) → before o (front ess i) (some e) ≡ false)
      → All (All (NotAfter o e)) ess
  first_among e [] t h = tt
  first_among e ([] ∷ ess) (t, ts) h = (tt, first_among e ess ts (λ i. h (suc i)))
  first_among e ((x ∷ es) ∷ ess) ((t, _), ts) h =
      ((h 0, NotAfter-All e x es (h 0) t), first_among e ess ts (λ i. h (suc i)))

  not_before-none : (a : Option KeyValue) → before o a none ≡ false → a ≡ none
  not_before-none none h = refl
  not_before-none (some a) h = cc

  module _ (src : MergeSource) {S : Type 0} (f : S → Bytes → Bytes → S) where
    -- The callback has been called on all entries, in order, and the loop has ended.
    abbrev pub Merged : List (List KeyValue) → S → Option (S × Bool) → Type 0
    Merged ess st r =
        (merged : List KeyValue) × (r ≡ some (fold_entries f st merged, true))
        × Permᴰ merged (all_entries ess)
        × InOrder o merged

    exhausted :
        (m : LoserTreeMerger src) (ess : List (List KeyValue))
        → IsReady src o m ess
        → front ess m.winner ≡ none
        → all_entries ess ≡ []
    exhausted m ess r h =
        all_entries-empty ess
          (λ i _. not_before-none (front ess i) (rw h at (winner_first src o m ess r i)))

    pub Merged-empty :
        (ess : List (List KeyValue)) (st : S)
        → all_entries ess ≡ []
        → Merged ess st (some (st, true))
    Merged-empty ess st e = ([], refl, rw e (Permᴰ.refl []), tt)

    pub Merged-cons :
        (ess : List (List KeyValue)) (i : ℕ) (k v : Bytes) (es : List KeyValue) (st : S)
        (r : Option (S × Bool))
        → get_elem? ess i ≡ some ((k, v) ∷ es)
        → front ess i ≡ some (k, v)
        → All (InOrder o) ess
        → ((j : ℕ) → before o (front ess j) (front ess i) ≡ false)
        → Merged (set ess i es) (f st k v) r
        → Merged ess st r
    Merged-cons ess i k v es st r at fr t least (merged, e, p, sorted) =
        let full = first_among (k, v) ess t (λ j. rw fr at (least j)) in
        let rest = All-at (All (NotAfter o (k, v))) ess i ((k, v) ∷ es) full at in
        let over = All-set (All (NotAfter o (k, v))) ess i es full rest.1 in
        (
          (k, v) ∷ merged,
          e,
          Permᴰ.trans (Permᴰ.cons refl p) (all_entries-take ess i (k, v) es at),
          (
            All-perm (NotAfter o (k, v)) p
                (All-all_entries (NotAfter o (k, v)) (set ess i es) over),
            sorted,
          ),
        )

    run_round :
        (fuel : ℕ) (m : LoserTreeMerger src) (ess : List (List KeyValue)) (es : List KeyValue)
        (s : src.State) (st : S)
        → IsReady src o m ess
        → All (InOrder o) ess
        → leb (length m.sources) m.winner ≡ false
        → get_elem? m.sources m.winner ≡ some s
        → get_elem? ess m.winner ≡ some es
        → front ess m.winner ≡ get_elem? es 0
        → Streams src s es
        → ((m' : LoserTreeMerger src) (ess' : List (List KeyValue)) (st' : S)
            → IsReady src o m' ess'
            → All (InOrder o) ess'
            → length (all_entries ess) ≡ suc (length (all_entries ess'))
            → Merged ess' st' (run src c f fuel m' st'))
        → Merged ess st (run src c f (suc fuel) m st)
    unfolding run
    run_round fuel m ess [] s st r t in_ at at' fr streams again =
        rw (in_, at, Streams-peek src s [] streams, run)
          (Merged-empty ess st (exhausted m ess r fr))
    run_round fuel m ess ((k, v) ∷ es) s st r t in_ at at' fr streams again =
        let (m', e, r') = advance_winner-IsReady src o m ess (k, v) es r at' in
        let t' =
          All-set (InOrder o) ess m.winner es t
            (All-at (InOrder o) ess m.winner ((k, v) ∷ es) t at').1 in
        rw (in_, at, Streams-peek src s ((k, v) ∷ es) streams, e, run)
          (Merged-cons ess m.winner k v es st _ at' fr t (winner_first src o m ess r) (
            again m' (set ess m.winner es) (f st k v) r' t'
              (length-all_entries ess m.winner (k, v) es at')))

    pub run-Merged :
        (fuel : ℕ) (m : LoserTreeMerger src) (ess : List (List KeyValue)) (st : S)
        → IsReady src o m ess
        → All (InOrder o) ess
        → length (all_entries ess) < fuel
        → Merged ess st (run src c f fuel m st)
    unfolding run
    run-Merged zero m ess st r t h = absurd (omega arith)
    run-Merged (suc fuel) m ess st r t h = elim (Bool-cases (leb (length m.sources) m.winner)) [
      | inl out ↦
          let n = AllStream-length src m.sources ess r.streams in
          rw (out, run)
            (Merged-empty ess st
              (exhausted m ess r (front-none_ge ess m.winner (omega (arith, leb→le _ _ out, n)))))
      | inr in_ ↦
          let (s, es, at, at', fr, streams) =
            AllStream-at src m.sources ess m.winner r.streams (ground arith) in
          run_round fuel m ess es s st r t in_ at at' fr streams
            (λ m' ess' st' r' t' n. run-Merged fuel m' ess' st' r' t' (omega (arith, n)))
    ]
