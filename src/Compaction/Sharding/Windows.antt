-- ===== src/Compaction/Sharding/Windows.antt =====
-- The shards of one source: which entries stand in which shard.
use compactor.Prelude.{
  ℕ, zero, suc, ◌==◌, ◌^◌, ◌≤◌, ◌<◌, ◌≡◌, refl, sym, ap, ◌∙◌, Bytes, List, [], ◌∷◌, map, Bool,
  false, ◌&&◌, some, length, get_elem?, arith, leb, ltb, le→leb, if◌then◌else◌, All,
  get_elem?-some_lt,
}
use compactor.Merge.Source.{KeyValue, ArenaSource, total_len, shard}
use compactor.Merge.Source.Arena.{bytes_of, arena_of, arena_of-spans, length-spans_of}
use compactor.Merge.Source.LowerBound.{
  below, IsKey, Ascending, count_below, count_below-length, count_below_mono, below-count_below,
  lower_bound-count_below,
}
use compactor.Compaction.Sharding.{split_source}

-- The number of boundaries in front that are not above the key: the shard of its user key.
unfoldable pub shard_of : List Bytes → Bytes → ℕ
shard_of [] k = 0
shard_of (b ∷ bs) k = if below k b then 0 else suc (shard_of bs k)

-- Index `i` is in the window of the shard.
abbrev pub in_window : ℕ → ArenaSource → Bool
in_window i s = leb s.pos i && ltb i s.end_

module _ (es : List KeyValue) (small : length (bytes_of es) < 2 ^ 32)
    (keys : All IsKey (map (λ e. e.0) es)) (asc : Ascending (map (λ e. e.0) es)) where
  shard-window :
      (start end_idx : ℕ)
      → start ≤ end_idx
      → end_idx ≤ length es
      → shard (arena_of es) start end_idx
        ≡ some (record (arena_of es) { pos = start; end_ = end_idx })
  unfolding shard
  shard-window start end_idx h h' =
      let n : length (arena_of es).spans ≡ length es =
        ap (λ (s : ArenaSource). length s.spans) (arena_of-spans es small) ∙ length-spans_of 0 es in
      rw (n, le→leb _ _ h, le→leb _ _ h') refl

  total_len-arena_of : total_len (arena_of es) ≡ length es
  unfolding total_len
  total_len-arena_of =
      ap (λ (s : ArenaSource). length s.spans) (arena_of-spans es small) ∙ length-spans_of 0 es

  -- Shard `j` holds the entries from index `start` on whose user key belongs to it.
  abbrev pub Placed : ℕ → List Bytes → List ArenaSource → Type 0
  Placed start bs shards =
      (i : ℕ) (e : KeyValue)
      → get_elem? es i ≡ some e
      → (j : ℕ) (s : ArenaSource) → get_elem? shards j ≡ some s
      → in_window i s ≡ (leb start i && shard_of bs e.0 == j)

  Placed-last :
      (start : ℕ) (s : ArenaSource) → s.pos ≡ start → s.end_ ≡ length es → Placed start [] (s ∷ [])
  unfolding shard_of
  Placed-last start s p q i e here zero s' r =
      let same : s ≡ s' = cc in rw (sym same, p, q) (ground (arith, get_elem?-some_lt es i here))
  Placed-last start s p q i e here (suc j) s' r = cc

  Placed-cons :
      (start : ℕ) (b : Bytes) (bs : List Bytes) (s : ArenaSource) (rest : List ArenaSource)
      → start ≤ count_below b es
      → s.pos ≡ start
      → s.end_ ≡ count_below b es
      → Placed (count_below b es) bs rest
      → Placed start (b ∷ bs) (s ∷ rest)
  unfolding shard_of
  Placed-cons start b bs s rest h p q placed i e here zero s' r =
      let same : s ≡ s' = cc in
      rw (sym same, p, q) (ground (arith, below-count_below b es i asc here))
  Placed-cons start b bs s rest h p q placed i e here (suc j) s' r =
      ground (arith, below-count_below b es i asc here, placed i e here j s' r)

  cuts_ascend :
      (b : Bytes) (bs : List Bytes)
      → All (λ b'. below b' b ≡ false) bs
      → All (λ b'. count_below b es ≤ count_below b' es) bs
  cuts_ascend b [] h = tt
  cuts_ascend b (b' ∷ bs) (h, hs) = (count_below_mono b b' es h, cuts_ascend b bs hs)

  pub split_source_from :
      (bs : List Bytes) (start : ℕ)
      → start ≤ length es
      → All (λ b. start ≤ count_below b es) bs
      → All IsKey bs
      → Ascending bs
      → (shards : List ArenaSource) × (split_source (arena_of es) start bs ≡ some shards)
        × (length shards ≡ suc (length bs))
        × Placed start bs shards
  unfolding split_source
  split_source_from [] start h hs kbs abs =
      let s = record (arena_of es) { pos = start; end_ = length es } in
      (
        s ∷ [],
        rw (total_len-arena_of, shard-window start (length es) h (omega arith)) refl,
        refl,
        Placed-last start s refl refl,
      )
  split_source_from (b ∷ bs) start h (hb, hs) (kb, kbs) (ab, abs) =
      let cut = count_below b es in
      let s = record (arena_of es) { pos = start; end_ = cut } in
      let within = count_below-length b es in
      let (rest, e, n, placed) = split_source_from bs cut within (cuts_ascend b bs ab) kbs abs in
      (
        s ∷ rest,
        rw (lower_bound-count_below b es small kb keys, shard-window start cut hb within, e) refl,
        ap suc n,
        Placed-cons start b bs s rest hb refl refl placed,
      )

  pub from_zero : (bs : List Bytes) → All (λ b. 0 ≤ count_below b es) bs
  from_zero [] = tt
  from_zero (b ∷ bs) = (omega arith, from_zero bs)

  -- A source of less than 4 GiB whose keys have a suffix and do not descend in their user keys is
  -- cut at boundaries that are such keys themselves without a failed assertion. An entry stands in
  -- a shard just where the shard is the one that the boundaries give its user key, so no user key
  -- straddles two shards, whichever sources contain it.
  pub split_source-Placed :
      (bs : List Bytes)
      → All IsKey bs
      → Ascending bs
      → (shards : List ArenaSource) × (split_source (arena_of es) 0 bs ≡ some shards)
        × ((i : ℕ) (e : KeyValue)
            → get_elem? es i ≡ some e
            → (j : ℕ) (s : ArenaSource) → get_elem? shards j ≡ some s
            → in_window i s ≡ shard_of bs e.0 == j)
  split_source-Placed bs kbs abs =
      let (shards, e, _, placed) = split_source_from bs 0 (omega arith) (from_zero bs) kbs abs in
      (shards, e, λ i x p j s q. ground (arith, placed i x p j s q))
