-- ===== src/Merge/LoserTree/Tourney.antt =====
-- The invariant of the loser tree: below each node a tournament of its leaves, with the loser of
-- each match at its node.
use compactor.Prelude.{
  ℕ, zero, suc, ◌+◌, ◌*◌, ◌<◌, Bool, true, false, List, some, get_elem?, set, get_elem?-set_other,
  ◌≡◌, refl, sym, ◌∙◌, inl, inr, arith, Bool-cases,
}
use compactor.Merge.LoserTree.Nodes.{In, In-le, Under, Under-children}

-- `ahead a b`: the front of leaf `a` is strictly before that of leaf `b`. Leaf `a` is node `a + k`.
pub data Tourney (ahead : ℕ → ℕ → Bool) (k : ℕ) (tree : List ℕ) : ℕ → ℕ → ℕ → Type 0 where
  leaf : {n w : ℕ} → n ≡ w + k → Tourney ahead k tree zero n w
  left :
      {d n w loser : ℕ}
      → Tourney ahead k tree d (2 * n) w
      → Tourney ahead k tree d (2 * n + 1) loser
      → get_elem? tree n ≡ some loser
      → ahead loser w ≡ false
      → Tourney ahead k tree (suc d) n w
  right :
      {d n w loser : ℕ}
      → Tourney ahead k tree d (2 * n) loser
      → Tourney ahead k tree d (2 * n + 1) w
      → get_elem? tree n ≡ some loser
      → ahead loser w ≡ false
      → Tourney ahead k tree (suc d) n w

irrefl :
    (ahead : ℕ → ℕ → Bool)
    → ((a b : ℕ) → ahead a b ≡ true → ahead b a ≡ false)
    → (a : ℕ) → ahead a a ≡ false
irrefl ahead asym a = elim (Bool-cases (ahead a a)) [ inl h ↦ asym a a h | inr h ↦ h ]

module _ {ahead : ℕ → ℕ → Bool} {k : ℕ} {tree : List ℕ} where
  pub Tourney-In : {d n w : ℕ} → Tourney ahead k tree d n w → In d n (w + k)
  Tourney-In (leaf e) = sym e
  Tourney-In (left l r e h) = inr (inl (Tourney-In l))
  Tourney-In (right l r e h) = inr (inr (Tourney-In r))

  -- It speaks of the nodes and leaves below its node alone.
  pub Tourney-frame :
      {ahead' : ℕ → ℕ → Bool} {tree' : List ℕ} {d n w : ℕ}
      → Tourney ahead k tree d n w
      → ((i : ℕ) → In d n i → get_elem? tree' i ≡ get_elem? tree i)
      → ((a b : ℕ) → In d n (a + k) → In d n (b + k) → ahead' a b ≡ ahead a b)
      → Tourney ahead' k tree' d n w
  Tourney-frame (leaf e) same same' = leaf e
  Tourney-frame {n} (left l r e h) same same' =
      left
        (Tourney-frame l (λ i p. same i (inr (inl p)))
          (λ a b p q. same' a b (inr (inl p)) (inr (inl q))))
        (Tourney-frame r (λ i p. same i (inr (inr p)))
          (λ a b p q. same' a b (inr (inr p)) (inr (inr q))))
        (same n (inl refl) ∙ e)
        (same' _ _ (inr (inr (Tourney-In r))) (inr (inl (Tourney-In l))) ∙ h)
  Tourney-frame {n} (right l r e h) same same' =
      right
        (Tourney-frame l (λ i p. same i (inr (inl p)))
          (λ a b p q. same' a b (inr (inl p)) (inr (inl q))))
        (Tourney-frame r (λ i p. same i (inr (inr p)))
          (λ a b p q. same' a b (inr (inr p)) (inr (inr q))))
        (same n (inl refl) ∙ e)
        (same' _ _ (inr (inl (Tourney-In l))) (inr (inr (Tourney-In r))) ∙ h)

  -- A write above the node is not seen.
  pub Tourney-set :
      {d n w : ℕ} (p v : ℕ)
      → p < n
      → Tourney ahead k tree d n w
      → Tourney ahead k (set tree p v) d n w
  Tourney-set {d} {n} p v m t =
      Tourney-frame t
        (λ j q.
          let low = In-le d n j q in get_elem?-set_other tree p v j (λ e. absurd (omega arith)))
        (λ a b q q'. refl)

  module _ (asym : (a b : ℕ) → ahead a b ≡ true → ahead b a ≡ false)
      (trans : (a b x : ℕ) → ahead b a ≡ false → ahead x b ≡ false → ahead x a ≡ false) where
    -- No leaf below the node is ahead of the winner.
    pub Tourney-winner :
        {d n w : ℕ} → Tourney ahead k tree d n w → (j : ℕ) → Under d n (j + k) → ahead j w ≡ false
    Tourney-winner {w} (leaf e) j (p, q) =
        let same : j ≡ w = omega arith in rw same (irrefl ahead asym w)
    Tourney-winner {d} {n} {w} (left {d = d'} {loser} l r e h) j u =
        elim (Under-children d' n (j + k) u) [
          | inl p ↦ Tourney-winner l j p
          | inr p ↦ trans w loser j h (Tourney-winner r j p)
        ]
    Tourney-winner {d} {n} {w} (right {d = d'} {loser} l r e h) j u =
        elim (Under-children d' n (j + k) u) [
          | inl p ↦ trans w loser j h (Tourney-winner l j p)
          | inr p ↦ Tourney-winner r j p
        ]
