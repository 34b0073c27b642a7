-- ===== src/Merge/LoserTree/Run.antt =====
-- The rounds of `run`: each hands out the least front element, and leaves a tournament.
use compactor.Prelude.{
  ℕ, zero, suc, ◌+◌, ◌^◌, ◌≤◌, ◌<◌, Bool, false, Bytes, List, [], ◌∷◌, some, length, length-set,
  get_elem?, set, All, ◌≡◌, ◌≢◌, refl, ap, inl, inr, arith, Bool-cases, leb, leb→le,
  get_elem?-some_lt, subst,
}
use compactor.Merge.Source.{KeyValue, MergeSource}
use compactor.Merge.Cmp.{KeyComparator}
use compactor.Merge.LoserTree.{LoserTreeMerger, less, replay_from_leaf, advance_winner, is_less}
use compactor.Merge.LoserTree.Fronts.{
  IsOrder, before, IsValidFront, less_front-before, before_asym, not_after_trans,
}
use compactor.Merge.LoserTree.Tourney.{Tourney, Tourney-winner}
use compactor.Merge.LoserTree.Replay.{Up, Up-frame, descend, replay_leaf-Tourney}
use compactor.Merge.Streams.{
  Streams, AllStream, front, peek_at-front, AllStream-length, AllStream-at, AllStream-set,
  Streams-advance, front-set_other, front-none_ge,
}

leb-false : (j n : ℕ) → leb n j ≡ false → j < n
leb-false j n h = ground arith

module _ (src : MergeSource) {c : KeyComparator} {Valid : Bytes → Type 0}
    (o : IsOrder c Valid) where
  abbrev pub ahead : List (List KeyValue) → ℕ → ℕ → Bool
  ahead ess a b = before o (front ess a) (front ess b)

  abbrev pub AllValid : List (List KeyValue) → Type 0
  AllValid = All (All (λ e. Valid e.0))

  pub valid_front :
      (ess : List (List KeyValue)) (i : ℕ) → AllValid ess → IsValidFront o (front ess i)
  valid_front [] i v = tt
  valid_front ([] ∷ ess) zero v = tt
  valid_front ((e ∷ es) ∷ ess) zero ((v, vs), vss) = v
  valid_front (es ∷ ess) (suc i) (v, vs) = valid_front ess i vs

  pub less-ahead :
      (sources : List src.State) (ess : List (List KeyValue)) (a b : ℕ)
      → AllStream src sources ess
      → AllValid ess
      → less src c sources a b ≡ some (ahead ess a b)
  unfolding less
  less-ahead sources ess a b t v =
      rw (peek_at-front src sources ess a t, peek_at-front src sources ess b t)
        (less_front-before o (front ess a) (front ess b) (valid_front ess a v)
          (valid_front ess b v))

  -- The merger between two rounds, with the entries that its sources are still to hand out.
  pub record IsReady (m : LoserTreeMerger src) (ess : List (List KeyValue)) : Type 0 where
    pub height : ℕ
    pub streams : AllStream src m.sources ess
    pub valid : AllValid ess
    pub padded : m.k_padded ≡ 2 ^ height
    pub enough : length ess ≤ m.k_padded
    pub tourney : Tourney (ahead ess) m.k_padded m.tree height 1 m.winner

  -- No source has a front element before the winner's.
  pub winner_first :
      (m : LoserTreeMerger src) (ess : List (List KeyValue))
      → IsReady m ess
      → (j : ℕ) → before o (front ess j) (front ess m.winner) ≡ false
  winner_first m ess r j = elim (Bool-cases (leb (length ess) j)) [
    | inl h ↦ rw (front-none_ge ess j (leb→le _ _ h)) refl
    | inr h ↦
        Tourney-winner (λ a b. before_asym o (front ess a) (front ess b))
          (λ a b x. not_after_trans o (front ess a) (front ess b) (front ess x)) r.tourney j
          (omega (arith, r.padded), omega (arith, r.padded, r.enough, leb-false j (length ess) h))
  ]

  pub AllValid-set :
      (ess : List (List KeyValue)) (i : ℕ) (e : KeyValue) (es : List KeyValue)
      → get_elem? ess i ≡ some (e ∷ es)
      → AllValid ess
      → AllValid (set ess i es)
  AllValid-set [] i e es h v = tt
  AllValid-set (es' ∷ ess) zero e es h (v, vs) =
      let same : es' ≡ e ∷ es = cc in ((subst (All (λ e. Valid e.0)) same v).1, vs)
  AllValid-set (es' ∷ ess) (suc i) e es h (v, vs) = (v, AllValid-set ess i e es h vs)

  ahead-set_other :
      (ess : List (List KeyValue)) (i : ℕ) (es : List KeyValue) (a b : ℕ)
      → a ≢ i
      → b ≢ i
      → ahead (set ess i es) a b ≡ ahead ess a b
  ahead-set_other ess i es a b p q =
      rw (front-set_other ess i a es p, front-set_other ess i b es q) refl

  -- A round: the winner's source is advanced, and the replay finds the next winner.
  pub advance_winner-IsReady :
      (m : LoserTreeMerger src) (ess : List (List KeyValue)) (e : KeyValue) (es : List KeyValue)
      → IsReady m ess
      → get_elem? ess m.winner ≡ some (e ∷ es)
      → (m' : LoserTreeMerger src) × (advance_winner src c m ≡ some m')
        × IsReady m' (set ess m.winner es)
  unfolding advance_winner replay_from_leaf
  advance_winner-IsReady m ess e es r h =
      let w = m.winner in
      let k = m.k_padded in
      let ess' = set ess w es in
      let n = AllStream-length src m.sources ess r.streams in
      let (s, l, at, at', _, streams) =
        AllStream-at src m.sources ess w r.streams (omega (arith, n, get_elem?-some_lt ess w h)) in
      let same : l ≡ e ∷ es = cc in
      let sources' = set m.sources w (src.advance s) in
      let streams' =
        AllStream-set src m.sources ess w (src.advance s) es r.streams
          (Streams-advance src s e es (subst (Streams src s) same streams)) in
      let valid' = AllValid-set ess w e es h r.valid in
      let up = descend {h = r.height} (omega arith) r.tourney (Up.root refl refl) in
      let up' =
        Up-frame {ahead' = ahead ess'} (w + k) refl up (λ j p. refl)
          (λ a b p q.
            ahead-set_other ess w es a b (λ x. p (ap (λ (y : ℕ). y + k) x))
              (λ x. q (ap (λ (y : ℕ). y + k) x))) in
      let (tree', w', e', t', _) =
        replay_leaf-Tourney src c sources' (λ a b. less-ahead sources' ess' a b streams' valid')
          (λ a b. before_asym o (front ess' a) (front ess' b)) k r.height w m.tree refl up' in
      (
        record { sources = sources'; tree = tree'; winner = w'; k_padded = k },
        rw (at, e') refl,
        record {
          height = r.height;
          streams = streams';
          valid = valid';
          padded = r.padded;
          enough = omega (arith, length-set ess w es, r.enough);
          tourney = t';
        },
      )

-- Whether `a` may stand somewhere in front of `b` in the output.
abbrev pub NotAfter :
    {c : KeyComparator} {Valid : Bytes → Type 0} → IsOrder c Valid → KeyValue → KeyValue → Type 0
NotAfter o a b = is_less (o.order b.0 a.0) ≡ false

abbrev pub InOrder :
    {c : KeyComparator} {Valid : Bytes → Type 0} → IsOrder c Valid → List KeyValue → Type 0
InOrder o [] = Unit
InOrder o (e ∷ es) = All (NotAfter o e) es × InOrder o es
