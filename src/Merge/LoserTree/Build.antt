-- ===== src/Merge/LoserTree/Build.antt =====
-- The first tournament: what `new` builds.
use native.Mathlib.Nat.{pow-suc, one-le-pow}
use compactor.Prelude.{
  ℕ, zero, suc, ◌+◌, ◌-◌, ◌*◌, ◌^◌, ◌≤◌, ◌<◌, Bool, true, false, List, Option, some, get_elem?, set,
  length, ◌≡◌, refl, ◌∙◌, inl, inr, arith, Bool-cases, if◌then◌else◌, get_elem?-set_self,
  get_elem?-set_other, length-set, le→leb, lt→leb, leb,
}
use compactor.Merge.Source.{MergeSource}
use compactor.Merge.Cmp.{KeyComparator}
use compactor.Merge.LoserTree.{build_subtree, less, power_from, next_power_of_two}
use compactor.Merge.LoserTree.Nodes.{In, In-siblings, double, double_next, odd_part, next_part}
use compactor.Merge.LoserTree.Tourney.{Tourney, Tourney-frame, Tourney-set}

-- The padded number of leaves is a power of two.
power_from-power : (fuel e n : ℕ) → (e' : ℕ) × (power_from fuel (2 ^ e) n ≡ 2 ^ e')
unfolding power_from
power_from-power zero e n = (e, refl)
power_from-power (suc fuel) e n = elim (Bool-cases (leb n (2 ^ e))) [
  | inl h ↦ (e, rw h refl)
  | inr h ↦
      let (e', p) = power_from-power fuel (suc e) n in
      let twice : 2 * 2 ^ e ≡ 2 ^ suc e = omega (arith, pow-suc 2 e) in (e', rw (h, twice) p)
]

-- The fuel is enough to reach `n`.
power_from-le : (fuel p n : ℕ) → 1 ≤ p → n ≤ p + fuel → n ≤ power_from fuel p n
unfolding power_from
power_from-le zero p n h m = omega arith
power_from-le (suc fuel) p n h m =
    ground (arith, power_from-le fuel (2 * p) n (omega arith) (omega arith))

pub next_power_of_two_lem :
    (n : ℕ) → (h : ℕ) × (next_power_of_two n ≡ 2 ^ h) × (n ≤ next_power_of_two n)
unfolding next_power_of_two
next_power_of_two_lem n =
    let (h, e) = power_from-power n 0 n in (h, e, power_from-le n 1 n (omega arith) (omega arith))

scaled : (m a : ℕ) → 1 ≤ a → m ≤ m * a
scaled m a h = grind arith

module _ (src : MergeSource) (c : KeyComparator) (sources : List src.State) {ahead : ℕ → ℕ → Bool}
    (tells : (a b : ℕ) → less src c sources a b ≡ some (ahead a b))
    (asym : (a b : ℕ) → ahead a b ≡ true → ahead b a ≡ false) (k : ℕ) where
  -- A tournament below the node, and nothing else of the tree changed.
  abbrev pub Built : ℕ → ℕ → List ℕ → Option (List ℕ × ℕ) → Type 0
  Built d n tree r =
      (tree' : List ℕ) × (w : ℕ) × (r ≡ some (tree', w))
      × Tourney ahead k tree' d n w
      × ((i : ℕ) → (In d n i → ⊥) → get_elem? tree' i ≡ get_elem? tree i)
      × (length tree' ≡ length tree)

  build_match :
      {d n left right : ℕ} {tree : List ℕ} (first : Bool)
      → ahead left right ≡ first
      → n < length tree
      → 1 ≤ n
      → Tourney ahead k tree d (2 * n) left
      → Tourney ahead k tree d (2 * n + 1) right
      → Tourney ahead k
          (set tree n (if first then right else left))
          (suc d)
          n
          (if first then left else right)
  build_match {d} {n} {left} {right} {tree} true e h pos l r =
      Tourney.left (Tourney-set n right (omega arith) l) (Tourney-set n right (omega arith) r)
        (get_elem?-set_self tree n right h) (asym left right e)
  build_match {d} {n} {left} {right} {tree} false e h pos l r =
      Tourney.right (Tourney-set n left (omega arith) l) (Tourney-set n left (omega arith) r)
        (get_elem?-set_self tree n left h) e

  -- Two subtrees, the right one built behind the left one, and their match.
  build_join :
      (d n : ℕ) (tree tree₁ tree₂ : List ℕ) (left right : ℕ)
      → n < length tree
      → 1 ≤ n
      → Tourney ahead k tree₁ d (2 * n) left
      → ((i : ℕ) → (In d (2 * n) i → ⊥) → get_elem? tree₁ i ≡ get_elem? tree i)
      → length tree₁ ≡ length tree
      → Tourney ahead k tree₂ d (2 * n + 1) right
      → ((i : ℕ) → (In d (2 * n + 1) i → ⊥) → get_elem? tree₂ i ≡ get_elem? tree₁ i)
      → length tree₂ ≡ length tree₁
      → Built (suc d) n tree (
          some (
            set tree₂ n (if ahead left right then right else left),
            if ahead left right then left else right,
          ))
  build_join d n tree tree₁ tree₂ left right h pos l same₁ len₁ r same₂ len₂ =
      let loser = if ahead left right then right else left in
      let l' =
        Tourney-frame l (λ i p. same₂ i (λ q. In-siblings d n i pos p q)) (λ a b p q. refl) in
      (
        set tree₂ n loser,
        if ahead left right then left else right,
        refl,
        build_match (ahead left right) refl (omega (arith, len₁, len₂)) pos l' r,
        (λ i out.
            get_elem?-set_other tree₂ n loser i (λ p. absurd (out (inl p)))
            ∙ same₂ i (λ p. out (inr (inr p)))
            ∙ same₁ i (λ p. out (inr (inl p)))),
        length-set tree₂ n loser ∙ len₂ ∙ len₁,
      )

  -- Node `n` is `d` levels above the leaves, which are the nodes from `k` to `2 * k`.
  pub build_subtree-Built :
      (d fuel n : ℕ) (tree : List ℕ)
      → d < fuel
      → 1 ≤ n
      → length tree ≡ k
      → k ≤ n * 2 ^ d
      → (n + 1) * 2 ^ d ≤ 2 * k
      → Built d n tree (build_subtree src c fuel sources k tree n)
  unfolding build_subtree
  build_subtree-Built d zero n tree h pos len low high = absurd (omega arith)
  build_subtree-Built zero (suc fuel) n tree h pos len low high = (
    tree,
    n - k,
    rw (le→leb k n (omega arith), build_subtree) refl,
    Tourney.leaf (omega arith),
    (λ i out. refl),
    refl,
  )
  build_subtree-Built (suc d) (suc fuel) n tree h pos len low high =
      let one = scaled (2 * (n + 1)) (2 ^ d) (one-le-pow d 2 (omega arith)) in
      let inner : n < k = omega (arith, double (n + 1) d, one) in
      let low_l : k ≤ 2 * n * 2 ^ d = omega (arith, double n d) in
      let low_r : k ≤ (2 * n + 1) * 2 ^ d = omega (arith, double n d, odd_part n d) in
      let high_r : (2 * n + 1 + 1) * 2 ^ d ≤ 2 * k =
        omega (arith, double_next n d, next_part (2 * n + 1) d) in
      let high_l : (2 * n + 1) * 2 ^ d ≤ 2 * k = omega (arith, double_next n d) in
      let (tree₁, left, e, l, same₁, len₁) =
        build_subtree-Built d fuel (2 * n) tree (omega arith) (omega arith) len low_l high_l in
      let (tree₂, right, e', r, same₂, len₂) =
        build_subtree-Built d fuel (2 * n + 1) tree₁ (omega arith) (omega arith) (len₁ ∙ len) low_r
          high_r in
      rw (lt→leb k n inner, e, e', tells left right, build_subtree)
        (build_join d n tree tree₁ tree₂ left right (omega arith) pos l same₁ len₁ r same₂ len₂)
