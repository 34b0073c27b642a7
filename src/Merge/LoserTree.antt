-- ===== src/Merge/LoserTree.antt =====
-- crates/compactor/src/merge/merger.rs, `LoserTreeMerger`. `none` is a panic, of the comparator, of
-- a source or of an index out of bounds. `&mut self` is the merger before and after; the callback
-- of `run` is a function on a state `S`.
pub mod Nodes
pub mod Fronts
pub mod Tourney
pub mod Replay
pub mod Build
pub mod Run
pub mod Sorted
pub mod Merging
use compactor.Prelude.{
  ℕ, zero, suc, ◌+◌, ◌-◌, ◌*◌, ◌/◌, Bool, true, false, Bytes, List, [], ◌∷◌, Option, none, some,
  ◌>>=◌, length, get_elem?, set, replicate, leb, ltb, ◌==◌, max, if◌then◌else◌, Ordering,
}
use compactor.Merge.Cmp.{KeyComparator, compare_with_prefix}
use compactor.Merge.Source.{KeyValue, MergeSource}

abbrev pub none_yet : ℕ
none_yet = 0xffff_ffff_ffff_ffff

pub record LoserTreeMerger (src : MergeSource) : Type 0 where
  pub sources : List src.State
  pub tree : List ℕ
  pub winner : ℕ
  pub k_padded : ℕ

-- `== Ordering::Less`
abbrev pub is_less : Ordering → Bool
is_less Ordering.lt = true
is_less _ = false

-- The smallest of `p`, `2 * p`, … that is not below `n`, with fuel for the doublings.
unfoldable pub power_from : ℕ → ℕ → ℕ → ℕ
power_from zero p n = p
power_from (suc fuel) p n = let rest = power_from fuel (2 * p) n in if leb n p then p else rest

-- `usize::next_power_of_two`
unfoldable pub next_power_of_two : ℕ → ℕ
next_power_of_two n = power_from n 1 n

-- The four cases of `less`.
unfoldable pub less_front : KeyComparator → Option KeyValue → Option KeyValue → Option Bool
less_front c (some (ka, _)) (some (kb, _)) = do
  order ← compare_with_prefix c ka kb
  some (is_less order)
less_front c (some _) none = some true
less_front c none _ = some false

unfoldable pub peek_at : (src : MergeSource) → List src.State → ℕ → Option (Option KeyValue)
peek_at src sources leaf =
    if leb (length sources) leaf then some none else do s ← get_elem? sources leaf; src.peek s

module _ (src : MergeSource) (c : KeyComparator) where
  unfoldable pub less : List src.State → ℕ → ℕ → Option Bool
  less sources a b = do pa ← peek_at src sources a; pb ← peek_at src sources b; less_front c pa pb

  -- The winner of the subtree, and the tree with the losers of its matches. The fuel bounds the
  -- depth. The write is in bounds: an inner node is below `k_padded`, the length of the tree.
  unfoldable pub build_subtree : ℕ → List src.State → ℕ → List ℕ → ℕ → Option (List ℕ × ℕ)
  build_subtree zero sources k_padded tree node = none
  build_subtree (suc fuel) sources k_padded tree node = elim (leb k_padded node) [
    | true ↦ some (tree, node - k_padded)
    | false ↦ do
      (tree₁, left) ← build_subtree fuel sources k_padded tree (2 * node)
      (tree₂, right) ← build_subtree fuel sources k_padded tree₁ (2 * node + 1)
      first ← less sources left right
      some (set tree₂ node (if first then right else left), if first then left else right)
  ]

  unfoldable pub new : List src.State → Option (LoserTreeMerger src)
  new sources = do
    let k_padded = next_power_of_two (max (length sources) 1)
    (tree, winner) ← build_subtree (suc k_padded) sources k_padded (replicate k_padded none_yet) 1
    some (record { sources = sources; tree = tree; winner = winner; k_padded = k_padded })

  -- The `while node >= 1` of `replay_from_leaf`: the tree and the winner behind it. Fuel `node` is
  -- enough, since the node is halved.
  unfoldable pub replay_loop : ℕ → List src.State → List ℕ → ℕ → ℕ → ℕ → Option (List ℕ × ℕ)
  replay_loop zero sources tree winner node contender = some (tree, winner)
  replay_loop (suc fuel) sources tree winner node contender = elim (leb 1 node) [
    | false ↦ some (tree, winner)
    | true ↦ do
      loser_here ← get_elem? tree node
      wins ← less sources contender loser_here
      let tree' = if wins then tree else set tree node contender
      let contender' = if wins then contender else loser_here
      elim (node == 1) [
        | true ↦ some (tree', contender')
        | false ↦ replay_loop fuel sources tree' winner (node / 2) contender'
      ]
  ]

  unfoldable pub replay_from_leaf : LoserTreeMerger src → ℕ → Option (LoserTreeMerger src)
  replay_from_leaf m leaf = do
    let node = (leaf + m.k_padded) / 2
    (tree, winner) ← replay_loop node m.sources m.tree m.winner node leaf
    some (record m { tree = tree; winner = winner })

  -- What is behind `f(k, v)` in a round of `run`.
  unfoldable pub advance_winner : LoserTreeMerger src → Option (LoserTreeMerger src)
  advance_winner m = do
    s ← get_elem? m.sources m.winner
    replay_from_leaf (record m { sources = set m.sources m.winner (src.advance s) }) m.winner

  module _ {S : Type 0} (f : S → Bytes → Bytes → S) where
    -- The `loop` of `run`, with fuel; the flag tells that it ended within it.
    unfoldable pub run : ℕ → LoserTreeMerger src → S → Option (S × Bool)
    run zero m st = some (st, false)
    run (suc fuel) m st = elim (leb (length m.sources) m.winner) [
      | true ↦ some (st, true)
      | false ↦ do
        s ← get_elem? m.sources m.winner
        front ← src.peek s
        elim front [
          | none ↦ some (st, true)
          | some (k, v) ↦ do m' ← advance_winner m; run fuel m' (f st k v)
        ]
    ]
