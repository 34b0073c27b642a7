-- ===== src/Merge/Streams.antt =====
-- What a merge sees of its sources: the entries that each of them is going to hand out. Nothing here
-- models code of the repository but `advance_n`, the calls of a client.
use compactor.Prelude.{
  ℕ, zero, suc, ◌≤◌, ◌<◌, Option, none, some, List, [], ◌∷◌, ◌++◌, length, length-append, get_elem?,
  set, ◌≡◌, refl, ap, arith, le→leb, lt→leb, ◌≢◌,
}
use mathlib.Core.List.{Permᴰ}
use mathlib.Core.List.Permᴰ
use compactor.Merge.Source.{KeyValue, MergeSource}
use compactor.Merge.Source.Shards.{advance_n}
use compactor.Merge.LoserTree.{peek_at}

-- After `n` calls of `advance`, `peek` is entry `n` of the list.
abbrev pub Streams : (src : MergeSource) → src.State → List KeyValue → Type 0
Streams src s es = (n : ℕ) → src.peek (advance_n src n s) ≡ some (get_elem? es n)

-- The sources stream the lists, each its own.
abbrev pub AllStream : (src : MergeSource) → List src.State → List (List KeyValue) → Type 0
AllStream src [] [] = Unit
AllStream src (s ∷ sources) (es ∷ ess) = Streams src s es × AllStream src sources ess
AllStream src _ _ = ⊥

abbrev pub all_entries : List (List KeyValue) → List KeyValue
all_entries [] = []
all_entries (es ∷ ess) = es ++ all_entries ess

-- The front element of source `i`, where there is such a source and it is not exhausted.
abbrev pub front : List (List KeyValue) → ℕ → Option KeyValue
front [] i = none
front (es ∷ ess) zero = get_elem? es 0
front (es ∷ ess) (suc i) = front ess i

module _ (src : MergeSource) where
  pub Streams-advance :
      (s : src.State) (e : KeyValue) (es : List KeyValue)
      → Streams src s (e ∷ es)
      → Streams src (src.advance s) es
  unfolding advance_n
  Streams-advance s e es h n = h (suc n)

  pub Streams-peek :
      (s : src.State) (es : List KeyValue) → Streams src s es → src.peek s ≡ some (get_elem? es 0)
  unfolding advance_n
  Streams-peek s es h = h 0

  pub AllStream-length :
      (sources : List src.State) (ess : List (List KeyValue))
      → AllStream src sources ess
      → length sources ≡ length ess
  AllStream-length [] [] h = refl
  AllStream-length [] (es ∷ ess) h = absurd h
  AllStream-length (s ∷ sources) [] h = absurd h
  AllStream-length (s ∷ sources) (es ∷ ess) (h, hs) = ap suc (AllStream-length sources ess hs)

  pub peek_at-front :
      (sources : List src.State) (ess : List (List KeyValue)) (i : ℕ)
      → AllStream src sources ess
      → peek_at src sources i ≡ some (front ess i)
  unfolding peek_at
  peek_at-front [] [] i h = rw (le→leb 0 i (omega arith)) refl
  peek_at-front [] (es ∷ ess) i h = absurd h
  peek_at-front (s ∷ sources) [] i h = absurd h
  peek_at-front (s ∷ sources) (es ∷ ess) zero (h, hs) =
      rw (lt→leb (suc (length sources)) 0 (omega arith)) (Streams-peek s es h)
  peek_at-front (s ∷ sources) (es ∷ ess) (suc i) (h, hs) =
      ground (arith, peek_at-front sources ess i hs)

  -- The source and the list at an index.
  pub AllStream-at :
      (sources : List src.State) (ess : List (List KeyValue)) (i : ℕ)
      → AllStream src sources ess
      → i < length sources
      → (s : src.State) × (es : List KeyValue) × (get_elem? sources i ≡ some s)
        × (get_elem? ess i ≡ some es)
        × (front ess i ≡ get_elem? es 0)
        × Streams src s es
  AllStream-at [] ess i h m = absurd (omega arith)
  AllStream-at (s ∷ sources) [] i h m = absurd h
  AllStream-at (s ∷ sources) (es ∷ ess) zero (h, hs) m = (s, es, refl, refl, refl, h)
  AllStream-at (s ∷ sources) (es ∷ ess) (suc i) (h, hs) m =
      AllStream-at sources ess i hs (omega arith)

  pub AllStream-set :
      (sources : List src.State) (ess : List (List KeyValue)) (i : ℕ) (s : src.State)
      (es : List KeyValue)
      → AllStream src sources ess
      → Streams src s es
      → AllStream src (set sources i s) (set ess i es)
  AllStream-set [] [] i s es h t = tt
  AllStream-set [] (_ ∷ ess) i s es h t = absurd h
  AllStream-set (_ ∷ sources) [] i s es h t = absurd h
  AllStream-set (_ ∷ sources) (_ ∷ ess) zero s es (h, hs) t = (t, hs)
  AllStream-set (_ ∷ sources) (_ ∷ ess) (suc i) s es (h, hs) t =
      (h, AllStream-set sources ess i s es hs t)

pub front-none_ge : (ess : List (List KeyValue)) (i : ℕ) → length ess ≤ i → front ess i ≡ none
front-none_ge [] i h = refl
front-none_ge (es ∷ ess) zero h = absurd (omega arith)
front-none_ge (es ∷ ess) (suc i) h = front-none_ge ess i (omega arith)

pub front-set_other :
    (ess : List (List KeyValue)) (i j : ℕ) (es : List KeyValue)
    → j ≢ i
    → front (set ess i es) j ≡ front ess j
front-set_other [] i j es h = refl
front-set_other (_ ∷ ess) zero zero es h = absurd (h refl)
front-set_other (_ ∷ ess) zero (suc j) es h = refl
front-set_other (_ ∷ ess) (suc i) zero es h = refl
front-set_other (_ ∷ ess) (suc i) (suc j) es h = front-set_other ess i j es (λ e. h (ap suc e))

-- Sources that are all exhausted have no entries.
pub all_entries-empty :
    (ess : List (List KeyValue))
    → ((i : ℕ) → i < length ess → front ess i ≡ none)
    → all_entries ess ≡ []
all_entries-empty [] h = refl
all_entries-empty ([] ∷ ess) h = all_entries-empty ess (λ i m. h (suc i) (omega arith))
all_entries-empty ((e ∷ es) ∷ ess) h = absurd (cc (h 0 (omega arith)))

append-middle :
    (xs : List KeyValue) (e : KeyValue) (ys : List KeyValue) → Permᴰ (e ∷ xs ++ ys) (xs ++ e ∷ ys)
append-middle [] e ys = Permᴰ.refl (e ∷ ys)
append-middle (x ∷ xs) e ys =
    Permᴰ.trans (Permᴰ.swap refl refl) (Permᴰ.cons refl (append-middle xs e ys))

append-perm :
    (xs : List KeyValue) {ys zs : List KeyValue} → Permᴰ ys zs → Permᴰ (xs ++ ys) (xs ++ zs)
append-perm [] p = p
append-perm (x ∷ xs) p = Permᴰ.cons refl (append-perm xs p)

-- To take the first entry of one source is to take it out of all entries.
pub all_entries-take :
    (ess : List (List KeyValue)) (i : ℕ) (e : KeyValue) (es : List KeyValue)
    → get_elem? ess i ≡ some (e ∷ es)
    → Permᴰ (e ∷ all_entries (set ess i es)) (all_entries ess)
all_entries-take [] i e es h = cc
all_entries-take (es' ∷ ess) zero e es h = let same : es' ≡ e ∷ es = cc in rw same (Permᴰ.refl _)
all_entries-take (es' ∷ ess) (suc i) e es h =
    Permᴰ.trans (append-middle es' e (all_entries (set ess i es)))
      (append-perm es' (all_entries-take ess i e es h))

pub length-all_entries :
    (ess : List (List KeyValue)) (i : ℕ) (e : KeyValue) (es : List KeyValue)
    → get_elem? ess i ≡ some (e ∷ es)
    → length (all_entries ess) ≡ suc (length (all_entries (set ess i es)))
length-all_entries [] i e es h = cc
length-all_entries (es' ∷ ess) zero e es h = let same : es' ≡ e ∷ es = cc in rw same refl
length-all_entries (es' ∷ ess) (suc i) e es h = omega (
  arith,
  length-append es' (all_entries ess),
  length-append es' (all_entries (set ess i es)),
  length-all_entries ess i e es h,
)
