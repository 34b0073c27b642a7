-- ===== src/Merge/LoserTree/Replay.antt =====
-- The way from a leaf to the root, and its replay.
use compactor.Prelude.{
  ℕ, zero, suc, ◌+◌, ◌*◌, ◌/◌, ◌≤◌, Bool, true, false, List, some, get_elem?, set, length, ◌≡◌, ◌≢◌,
  refl, sym, ◌∙◌, inl, inr, arith, Bool-cases, ◌==◌, if◌then◌else◌, get_elem?-set_self,
  get_elem?-set_other, subst, get_elem?-some_lt, Option, length-set, le→leb,
}
use compactor.Merge.Source.{MergeSource}
use compactor.Merge.Cmp.{KeyComparator}
use compactor.Merge.LoserTree.{replay_loop, less}
use compactor.Merge.LoserTree.Nodes.{In, In-le, In-self, In-siblings}
use compactor.Merge.LoserTree.Tourney.{Tourney, Tourney-frame, Tourney-set}

-- What stands beside and above a node: the tournaments of the siblings on its way to the root, of
-- height `h`, whose winners lost to what came from below.
pub data Up (ahead : ℕ → ℕ → Bool) (k h : ℕ) (tree : List ℕ) : ℕ → ℕ → Type 0 where
  root : {d n : ℕ} → d ≡ h → n ≡ 1 → Up ahead k h tree d n
  left :
      {d n : ℕ} (p loser : ℕ)
      → n ≡ 2 * p
      → 1 ≤ p
      → Tourney ahead k tree d (2 * p + 1) loser
      → get_elem? tree p ≡ some loser
      → Up ahead k h tree (suc d) p
      → Up ahead k h tree d n
  right :
      {d n : ℕ} (p loser : ℕ)
      → n ≡ 2 * p + 1
      → 1 ≤ p
      → Tourney ahead k tree d (2 * p) loser
      → get_elem? tree p ≡ some loser
      → Up ahead k h tree (suc d) p
      → Up ahead k h tree d n

module _ {ahead : ℕ → ℕ → Bool} {k h : ℕ} {tree : List ℕ} where
  -- From the winner of a tournament down to its leaf.
  pub descend :
      {d n w : ℕ}
      → 1 ≤ n
      → Tourney ahead k tree d n w
      → Up ahead k h tree d n
      → Up ahead k h tree 0 (w + k)
  descend pos (Tourney.leaf e) up = subst (Up ahead k h tree 0) e up
  descend {n} pos (Tourney.left l r e m) up = descend (omega arith) l (left n _ refl pos r e up)
  descend {n} pos (Tourney.right l r e m) up = descend (omega arith) r (right n _ refl pos l e up)

  -- A change below the node is not seen from above: a write into the tree there, or a leaf there
  -- whose front has changed.
  pub Up-frame :
      {ahead' : ℕ → ℕ → Bool} {tree' : List ℕ} {d n : ℕ} (i : ℕ)
      → In d n i
      → Up ahead k h tree d n
      → ((j : ℕ) → j ≢ i → get_elem? tree' j ≡ get_elem? tree j)
      → ((a b : ℕ) → a + k ≢ i → b + k ≢ i → ahead' a b ≡ ahead a b)
      → Up ahead' k h tree' d n
  Up-frame i in_ (root e e') same same' = root e e'
  Up-frame {d} {n} i in_ (left p loser e pos t r up) same same' =
      let in' : In d (2 * p) i = subst (λ m. In d m i) e in_ in
      let apart : (j : ℕ) → In d (2 * p + 1) j → j ≢ i =
        λ j q m. In-siblings d p i pos in' (subst (In d (2 * p + 1)) m q) in
      let low = In-le d (2 * p) i in' in
      left p loser e pos
        (Tourney-frame t (λ j q. same j (apart j q))
          (λ a b q q'. same' a b (apart _ q) (apart _ q')))
        (same p (λ m. absurd (omega arith)) ∙ r) (Up-frame i (inr (inl in')) up same same')
  Up-frame {d} {n} i in_ (right p loser e pos t r up) same same' =
      let in' : In d (2 * p + 1) i = subst (λ m. In d m i) e in_ in
      let apart : (j : ℕ) → In d (2 * p) j → j ≢ i =
        λ j q m. In-siblings d p i pos (subst (In d (2 * p)) m q) in' in
      let low = In-le d (2 * p + 1) i in' in
      right p loser e pos
        (Tourney-frame t (λ j q. same j (apart j q))
          (λ a b q q'. same' a b (apart _ q) (apart _ q')))
        (same p (λ m. absurd (omega arith)) ∙ r) (Up-frame i (inr (inr in')) up same same')

  root_height : {d n : ℕ} → Up ahead k h tree d n → n ≡ 1 → d ≡ h
  root_height (root e e') m = e
  root_height (left p loser e pos t r up) m = absurd (omega arith)
  root_height (right p loser e pos t r up) m = absurd (omega arith)

-- The match of a round: the tree and the winner that it leaves.
abbrev rematched : Bool → List ℕ → ℕ → ℕ → List ℕ
rematched wins tree p contender = if wins then tree else set tree p contender

abbrev next_up : Bool → ℕ → ℕ → ℕ
next_up wins contender loser = if wins then contender else loser

module _ {ahead : ℕ → ℕ → Bool} (asym : (a b : ℕ) → ahead a b ≡ true → ahead b a ≡ false)
    (tree : List ℕ) (p contender loser : ℕ) (pos : 1 ≤ p)
    (here : get_elem? tree p ≡ some loser) where
  rematch_left :
      {k d : ℕ} (wins : Bool)
      → ahead contender loser ≡ wins
      → Tourney ahead k tree d (2 * p) contender
      → Tourney ahead k tree d (2 * p + 1) loser
      → Tourney ahead k (rematched wins tree p contender) (suc d) p (next_up wins contender loser)
  rematch_left true e t s = Tourney.left t s here (asym contender loser e)
  rematch_left false e t s =
      Tourney.right (Tourney-set p contender (omega arith) t)
        (Tourney-set p contender (omega arith) s)
        (get_elem?-set_self tree p contender (get_elem?-some_lt tree p here)) e

  rematch_right :
      {k d : ℕ} (wins : Bool)
      → ahead contender loser ≡ wins
      → Tourney ahead k tree d (2 * p + 1) contender
      → Tourney ahead k tree d (2 * p) loser
      → Tourney ahead k (rematched wins tree p contender) (suc d) p (next_up wins contender loser)
  rematch_right true e t s = Tourney.right s t here (asym contender loser e)
  rematch_right false e t s =
      Tourney.left (Tourney-set p contender (omega arith) s)
        (Tourney-set p contender (omega arith) t)
        (get_elem?-set_self tree p contender (get_elem?-some_lt tree p here)) e

  rematch-Up :
      {k h d : ℕ} (wins : Bool)
      → Up ahead k h tree d p
      → Up ahead k h (rematched wins tree p contender) d p
  rematch-Up true up = up
  rematch-Up {d} false up =
      Up-frame p (In-self d p) up (λ j m. get_elem?-set_other tree p contender j m)
        (λ a b m m'. refl)

length-rematched :
    (wins : Bool) (tree : List ℕ) (p contender : ℕ)
    → length (rematched wins tree p contender) ≡ length tree
length-rematched true tree p contender = refl
length-rematched false tree p contender = length-set tree p contender

module _ (src : MergeSource) (c : KeyComparator) (sources : List src.State) {ahead : ℕ → ℕ → Bool}
    (tells : (a b : ℕ) → less src c sources a b ≡ some (ahead a b))
    (asym : (a b : ℕ) → ahead a b ≡ true → ahead b a ≡ false) (k h winner : ℕ) where
  abbrev pub Replayed : List ℕ → Option (List ℕ × ℕ) → Type 0
  Replayed tree r =
      (tree' : List ℕ) × (w : ℕ) × (r ≡ some (tree', w))
      × Tourney ahead k tree' h 1 w
      × (length tree' ≡ length tree)

  replay_round :
      (fuel : ℕ) (tree : List ℕ) (d p contender loser : ℕ)
      → 1 ≤ p
      → get_elem? tree p ≡ some loser
      → Tourney ahead k
          (rematched (ahead contender loser) tree p contender)
          (suc d)
          p
          (next_up (ahead contender loser) contender loser)
      → Up ahead k h tree (suc d) p
      → (2 ≤ p
          → Replayed (rematched (ahead contender loser) tree p contender) (
              replay_loop src c fuel sources
                (rematched (ahead contender loser) tree p contender)
                winner
                (p / 2)
                (next_up (ahead contender loser) contender loser)))
      → Replayed tree (replay_loop src c (suc fuel) sources tree winner p contender)
  unfolding replay_loop
  replay_round fuel tree d p contender loser pos here t up again =
      let shape = length-rematched (ahead contender loser) tree p contender in
      elim (Bool-cases (p == 1)) [
        | inl one ↦
            let top : p ≡ 1 = ground arith in
            (
              _,
              _,
              rw (le→leb 1 p pos, here, tells contender loser, one, replay_loop) refl,
              subst
                  (λ q.
                    Tourney ahead k (rematched (ahead contender loser) tree p contender) h q
                      (next_up (ahead contender loser) contender loser))
                  top
                  (subst
                    (λ q.
                      Tourney ahead k (rematched (ahead contender loser) tree p contender) q p
                        (next_up (ahead contender loser) contender loser))
                    (root_height up top) t),
              shape,
            )
        | inr more ↦
            let (tree', w, e, t', n) = again (ground arith) in
            (
              tree',
              w,
              rw (le→leb 1 p pos, here, tells contender loser, more, replay_loop) e,
              t',
              n ∙ shape,
            )
      ]

  -- The replay from a node that has a parent: the contender of the node's tournament meets the
  -- losers on its way, and what comes out is a tournament again.
  pub replay_loop-Tourney :
      (fuel : ℕ) (tree : List ℕ) (d n contender : ℕ)
      → 2 ≤ n
      → n / 2 ≤ fuel
      → Tourney ahead k tree d n contender
      → Up ahead k h tree d n
      → Replayed tree (replay_loop src c fuel sources tree winner (n / 2) contender)
  replay_loop-Tourney zero tree d n contender two enough t up = absurd (omega arith)
  replay_loop-Tourney (suc fuel) tree d n contender two enough t (root e e') = absurd (omega arith)
  replay_loop-Tourney (suc fuel) tree d n contender two enough t (left p loser e pos s here up) =
      let half : n / 2 ≡ p = omega arith in
      let wins = ahead contender loser in
      let t' =
        rematch_left asym tree p contender loser pos here wins refl
          (subst (λ m. Tourney ahead k tree d m contender) e t) s in
      rw half (
        replay_round fuel tree d p contender loser pos here t' up (λ more.
          replay_loop-Tourney fuel (rematched wins tree p contender) (suc d) p
            (next_up wins contender loser) more (omega arith) t'
            (rematch-Up asym tree p contender loser pos here wins up)))
  replay_loop-Tourney (suc fuel) tree d n contender two enough t (right p loser e pos s here up) =
      let half : n / 2 ≡ p = omega arith in
      let wins = ahead contender loser in
      let t' =
        rematch_right asym tree p contender loser pos here wins refl
          (subst (λ m. Tourney ahead k tree d m contender) e t) s in
      rw half (
        replay_round fuel tree d p contender loser pos here t' up (λ more.
          replay_loop-Tourney fuel (rematched wins tree p contender) (suc d) p
            (next_up wins contender loser) more (omega arith) t'
            (rematch-Up asym tree p contender loser pos here wins up)))

  -- The replay from a leaf, which stands at the root where there is only one.
  pub replay_leaf-Tourney :
      (tree : List ℕ) {n : ℕ}
      → n ≡ winner + k
      → Up ahead k h tree 0 n
      → Replayed tree (replay_loop src c (n / 2) sources tree winner (n / 2) winner)
  unfolding replay_loop
  replay_leaf-Tourney tree {n} same (root e e') =
      let none_above : n / 2 ≡ 0 = omega arith in
      (
        tree,
        winner,
        rw (none_above, replay_loop) refl,
        subst (λ d. Tourney ahead k tree d 1 winner) e (Tourney.leaf (sym e' ∙ same)),
        refl,
      )
  replay_leaf-Tourney tree {n} same (left p loser e pos t r up) =
      replay_loop-Tourney (n / 2) tree 0 n winner (omega arith) (omega arith) (Tourney.leaf same)
        (left p loser e pos t r up)
  replay_leaf-Tourney tree {n} same (right p loser e pos t r up) =
      replay_loop-Tourney (n / 2) tree 0 n winner (omega arith) (omega arith) (Tourney.leaf same)
        (right p loser e pos t r up)
