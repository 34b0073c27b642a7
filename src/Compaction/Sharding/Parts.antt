-- ===== src/Compaction/Sharding/Parts.antt =====
-- Every shard of a source is a window of it.
use compactor.Prelude.{
  ℕ, zero, suc, ◌≤◌, ◌≡◌, refl, sym, Bytes, List, [], ◌∷◌, some, length, get_elem?, leb, ◌&&◌,
  leb→le, All, subst, arith, Bool-cases, Option-cases, inl, inr,
}
use compactor.Merge.Source.{KeyValue, ArenaSource, shard, lower_bound, total_len}
use compactor.Merge.Source.Arena.{arena_of}
use compactor.Compaction.Sharding.{split_source}

abbrev pub IsPart : List KeyValue → ArenaSource → Type 0
IsPart es s =
    (s.pos ≤ s.end_)
    × (s.end_ ≤ length (arena_of es).spans)
    × (shard (arena_of es) s.pos s.end_ ≡ some s)

shard-IsPart :
    (es : List KeyValue) (a b : ℕ) (s : ArenaSource)
    → shard (arena_of es) a b ≡ some s
    → IsPart es s
unfolding shard
shard-IsPart es a b s h = elim (Bool-cases (leb a b && leb b (length (arena_of es).spans))) [
  | inr t ↦ absurd (cc (rw t at h))
  | inl t ↦
      let made : some (record (arena_of es) { pos = a; end_ = b }) ≡ some s = rw t at h in
      let same : record (arena_of es) { pos = a; end_ = b } ≡ s = cc in
      rw (sym same) (
        ground (arith, leb→le a b),
        ground (arith, leb→le b (length (arena_of es).spans)),
        rw t refl,
      )
]

split_source-parts :
    (es : List KeyValue) (bs : List Bytes) (start : ℕ) (shards : List ArenaSource)
    → split_source (arena_of es) start bs ≡ some shards
    → All (IsPart es) shards
unfolding split_source
split_source-parts es [] start shards h =
    elim (Option-cases (shard (arena_of es) start (total_len (arena_of es)))) [
      | inl e ↦ absurd (cc (rw e at h))
      | inr (s, e) ↦
          let made : some (s ∷ []) ≡ some shards = rw e at h in
          let same : s ∷ [] ≡ shards = cc in
          subst (All (IsPart es)) same (shard-IsPart es _ _ s e, tt)
    ]
split_source-parts es (b ∷ bs) start shards h = elim (Option-cases (lower_bound (arena_of es) b)) [
  | inl e ↦ absurd (cc (rw e at h))
  | inr (end_, e) ↦ elim (Option-cases (shard (arena_of es) start end_)) [
    | inl e' ↦ absurd (cc (rw (e, e') at h))
    | inr (s, e') ↦ elim (Option-cases (split_source (arena_of es) end_ bs)) [
      | inl e'' ↦ absurd (cc (rw (e, e', e'') at h))
      | inr (rest, e'') ↦
          let made : some (s ∷ rest) ≡ some shards = rw (e, e', e'') at h in
          let same : s ∷ rest ≡ shards = cc in
          subst (All (IsPart es)) same
            (shard-IsPart es start end_ s e', split_source-parts es bs end_ rest e'')
    ]
  ]
]

IsPart-at :
    (es : List KeyValue) (shards : List ArenaSource) (j : ℕ) (s : ArenaSource)
    → All (IsPart es) shards
    → get_elem? shards j ≡ some s
    → IsPart es s
IsPart-at es [] j s h q = absurd (cc q)
IsPart-at es (s' ∷ shards) zero s (h, hs) q = let same : s' ≡ s = cc in subst (IsPart es) same h
IsPart-at es (s' ∷ shards) (suc j) s (h, hs) q = IsPart-at es shards j s hs q

pub split_source-IsPart :
    (es : List KeyValue) (bs : List Bytes) (start : ℕ) (shards : List ArenaSource)
    → split_source (arena_of es) start bs ≡ some shards
    → (j : ℕ) (s : ArenaSource) → get_elem? shards j ≡ some s
    → IsPart es s
split_source-IsPart es bs start shards h j s q =
    IsPart-at es shards j s (split_source-parts es bs start shards h) q
