-- ===== src/Compaction/Sharding/Inputs.antt =====
-- The inputs of all shards of `compact_sharded`, from all sources.
use compactor.Prelude.{
  ℕ, zero, suc, ◌+◌, ◌==◌, ◌≤◌, ◌<◌, ◌≡◌, refl, sym, ap, ◌∙◌, Bytes, List, [], ◌∷◌, ◌++◌,
  append_assoc, map, append-nil, subst, some, length, length-replicate, get_elem?,
  get_elem?-some_lt, replicate, All, arith,
}
use compactor.Merge.Source.{KeyValue, ArenaSource}
use compactor.Merge.Source.Arena.{arena_of}
use compactor.Merge.Source.LowerBound.{IsKey, Ascending}
use compactor.Compaction.Sharding.{push_each, push_shards, shard_inputs, pick_shard_boundaries}
use compactor.Compaction.Sharding.Parts.{IsPart, split_source-IsPart}
use compactor.Compaction.Sharding.Windows.{in_window, shard_of, split_source_from, from_zero}
use compactor.Compaction.Sharding.Boundaries.{
  IsSource, get_elem?-lt, pick_shard_boundaries-Ascending,
}

-- The input of shard `j` is one part of each source, in their order, and each holds just the
-- entries of its source whose user key belongs to shard `j`.
abbrev pub IsInput : List Bytes → ℕ → List (List KeyValue) → List ArenaSource → Type 0
IsInput bs j [] input = input ≡ []
IsInput bs j (es ∷ ess) input =
    (s : ArenaSource) × (rest : List ArenaSource) × (input ≡ s ∷ rest)
    × IsPart es s
    × ((i : ℕ) (e : KeyValue) → get_elem? es i ≡ some e → in_window i s ≡ shard_of bs e.0 == j)
    × IsInput bs j ess rest

length-push_each :
    (inputs : List (List ArenaSource)) (row : List ArenaSource)
    → length (push_each inputs row) ≡ length inputs
unfolding push_each
length-push_each [] row = refl
length-push_each (c ∷ inputs) [] = refl
length-push_each (c ∷ inputs) (s ∷ row) = ap suc (length-push_each inputs row)

get_elem?-push_each :
    (inputs : List (List ArenaSource)) (row : List ArenaSource) (j : ℕ) {c : List ArenaSource}
    {s : ArenaSource}
    → get_elem? inputs j ≡ some c
    → get_elem? row j ≡ some s
    → get_elem? (push_each inputs row) j ≡ some (c ++ s ∷ [])
unfolding push_each
get_elem?-push_each [] row j p q = cc
get_elem?-push_each (c ∷ inputs) [] j p q = cc
get_elem?-push_each (c₀ ∷ inputs) (s₀ ∷ row) zero {c} {s} p q =
    let same : c₀ ≡ c = cc in let same' : s₀ ≡ s = cc in rw (same, same') refl
get_elem?-push_each (c ∷ inputs) (s ∷ row) (suc j) p q = get_elem?-push_each inputs row j p q

get_elem?-replicate :
    (n j : ℕ) (c : List ArenaSource) → j < n → get_elem? (replicate n c) j ≡ some c
get_elem?-replicate zero j c h = absurd (omega arith)
get_elem?-replicate (suc n) zero c h = refl
get_elem?-replicate (suc n) (suc j) c h = get_elem?-replicate n j c (omega arith)

module _ (bs : List Bytes) (keys : All IsKey bs) (asc : Ascending bs) where
  push_shards-IsInput :
      (ess : List (List KeyValue)) (inputs : List (List ArenaSource))
      → All IsSource ess
      → length inputs ≡ suc (length bs)
      → (inputs' : List (List ArenaSource)) × (push_shards bs inputs (map arena_of ess)
          ≡ some inputs')
        × (length inputs' ≡ suc (length bs))
        × ((j : ℕ) (c : List ArenaSource)
            → get_elem? inputs j ≡ some c
            → (rest : List ArenaSource) × (get_elem? inputs' j ≡ some (c ++ rest))
              × IsInput bs j ess rest)
  unfolding push_shards
  push_shards-IsInput [] inputs ts n =
      (inputs, refl, n, λ j c p. ([], p ∙ ap some (sym (append-nil c)), refl))
  push_shards-IsInput (es ∷ ess) inputs (t, ts) n =
      let (row, e, m, placed) =
        split_source_from es t.small t.keys t.ascending bs 0 (omega arith)
          (from_zero es t.small t.keys t.ascending bs) keys asc in
      let (inputs', e', n', each) =
        push_shards-IsInput ess (push_each inputs row) ts (length-push_each inputs row ∙ n) in
      (
        inputs',
        rw e e',
        n',
        λ j c p.
            let (s, q) = get_elem?-lt row j (omega (arith, get_elem?-some_lt inputs j p, m, n)) in
            let (rest, r, is) = each j (c ++ s ∷ []) (get_elem?-push_each inputs row j p q) in
            (
              s ∷ rest,
              r ∙ ap some (append_assoc c (s ∷ []) rest),
              (
                s,
                rest,
                refl,
                split_source-IsPart es bs 0 row e j s q,
                (λ i x h. ground (arith, placed i x h j s q)),
                is,
              ),
            ),
      )

  shard_inputs-IsInput :
      (ess : List (List KeyValue))
      → All IsSource ess
      → (inputs : List (List ArenaSource)) × (shard_inputs (map arena_of ess) bs ≡ some inputs)
        × (length inputs ≡ length bs + 1)
        × ((j : ℕ) (input : List ArenaSource)
            → get_elem? inputs j ≡ some input
            → IsInput bs j ess input)
  unfolding shard_inputs
  shard_inputs-IsInput ess ts =
      let (inputs, e, n, each) =
        push_shards-IsInput ess (replicate (length bs + 1) []) ts
          (length-replicate {A = List ArenaSource} (length bs + 1) [] ∙ omega arith) in
      (
        inputs,
        e,
        omega (arith, n),
        λ j input p.
            let (rest, q, is) = each j [] (
              get_elem?-replicate (length bs + 1) j []
                (omega (arith, n, get_elem?-some_lt inputs j p))) in
            let same : rest ≡ input = cc in subst (IsInput bs j ess) same is,
      )

-- From at least one source in order, whichever is the largest, the boundaries are picked and all
-- sources are cut at them without a panic. There is an input for each shard, one shard more than
-- boundaries; it holds, of each source, just the entries whose user key belongs to the shard. So
-- all versions of a user key, whichever sources contain them, go to the same shard.
pub shard_inputs-pick_shard_boundaries :
    (ess : List (List KeyValue)) (num_shards : ℕ)
    → 1 ≤ length ess
    → 1 ≤ num_shards
    → All IsSource ess
    → (bs : List Bytes) × (inputs : List (List ArenaSource)) × (pick_shard_boundaries
          (map arena_of ess)
          num_shards
        ≡ some bs)
      × (shard_inputs (map arena_of ess) bs ≡ some inputs)
      × (length inputs ≡ length bs + 1)
      × ((j : ℕ) (input : List ArenaSource)
          → get_elem? inputs j ≡ some input
          → IsInput bs j ess input)
shard_inputs-pick_shard_boundaries ess num_shards h h' ts =
    let (bs, e, keys, asc) = pick_shard_boundaries-Ascending ess num_shards h h' ts in
    let (inputs, e', n, each) = shard_inputs-IsInput bs keys asc ess ts in
    (bs, inputs, e, e', n, each)
