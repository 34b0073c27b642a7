-- ===== src/Compaction/Sharding/Boundaries.antt =====
-- The boundaries that `pick_shard_boundaries` picks from sources in order: keys, in order again.
use native.Mathlib.Nat.{div-mul-le_self, le-div_iff_mul-le}
use compactor.Prelude.{
  ℕ, zero, suc, ◌+◌, ◌-◌, ◌*◌, ◌/◌, ◌==◌, ◌^◌, ◌≤◌, ◌<◌, ◌≡◌, refl, sym, ap, ◌∙◌, Bytes, List, [],
  ◌∷◌, map, false, some, ◌>>=◌, length, get_elem?, arith, ltb, min, At, All, Bool-cases, inl, inr,
  ◌++◌,
}
use compactor.Merge.Source.{KeyValue, ArenaSource, total_len, key, key_at}
use compactor.Merge.Source.Arena.{
  bytes_of, spans_of, arena_of, arena_of-spans, length-spans_of, key-span_at, At-next,
}
use compactor.Merge.Source.LowerBound.{below, IsKey, Ascending, All-get_elem?, below_self}
use compactor.Compaction.Sharding.{largest_of, boundaries_from, pick_shard_boundaries}

-- Entries that a source can be built from: less than 4 GiB, their keys with a suffix, and no key
-- below one before it in the order of the user keys.
pub record IsSource (es : List KeyValue) : Type 0 where
  pub small : length (bytes_of es) < 2 ^ 32
  pub keys : All IsKey (map (λ e. e.0) es)
  pub ascending : Ascending (map (λ e. e.0) es)

div_mono : (a b k : ℕ) → 1 ≤ k → a ≤ b → a / k ≤ b / k
div_mono a b k h ab = (le-div_iff_mul-le h).1 (omega (arith, div-mul-le_self a k))

pub get_elem?-lt :
    {A : Type 0} (xs : List A) (i : ℕ) → i < length xs → (x : A) × (get_elem? xs i ≡ some x)
get_elem?-lt [] i h = absurd (omega arith)
get_elem?-lt (x ∷ xs) zero h = (x, refl)
get_elem?-lt (x ∷ xs) (suc i) h = get_elem?-lt xs i (omega arith)

-- Later keys are not below earlier ones.
below-get_elem? :
    (es : List KeyValue) (i j : ℕ) {e e' : KeyValue}
    → Ascending (map (λ e. e.0) es)
    → get_elem? es i ≡ some e
    → get_elem? es j ≡ some e'
    → i ≤ j
    → below e'.0 e.0 ≡ false
below-get_elem? [] i j asc p q h = cc
below-get_elem? (x ∷ es) zero zero {e} {e'} asc p q h =
    let same : e ≡ e' = cc in rw (ap (λ (y : KeyValue). y.0) same) (below_self e'.0)
below-get_elem? (x ∷ es) zero (suc j) {e} {e'} (first, asc) p q h =
    let same : x ≡ e = cc in
    rw (sym (ap (λ (y : KeyValue). y.0) same))
      (All-get_elem? (λ k'. below k' x.0 ≡ false) es j first q)
below-get_elem? (x ∷ es) (suc i) zero asc p q h = absurd (omega arith)
below-get_elem? (x ∷ es) (suc i) (suc j) (first, asc) p q h =
    below-get_elem? es i j asc p q (omega arith)

module _ (s : ArenaSource) (small : length s.arena < 2 ^ 32) where
  key-spans_of :
      (off : ℕ) (es : List KeyValue) (i : ℕ) {e : KeyValue}
      → At s.arena off (bytes_of es)
      → get_elem? es i ≡ some e
      → (do span ← get_elem? (spans_of off es) i; key s span) ≡ some e.0
  unfolding spans_of bytes_of
  key-spans_of off [] i at p = cc
  key-spans_of off ((k, v) ∷ es) zero {e} at p =
      let same : (k, v) ≡ e = cc in
      key-span_at s small off k (v ++ bytes_of es) v at ∙ ap (λ (y : KeyValue). some y.0) same
  key-spans_of off ((k, v) ∷ es) (suc i) at p =
      key-spans_of (off + length k + length v) es i (At-next s small off k v es at) p

module _ (es : List KeyValue) (t : IsSource es) where
  total_len-arena_of : total_len (arena_of es) ≡ length es
  unfolding total_len
  total_len-arena_of =
      ap (λ (s : ArenaSource). length s.spans) (arena_of-spans es t.small) ∙ length-spans_of 0 es

  key_at-arena_of :
      (i : ℕ) {e : KeyValue} → get_elem? es i ≡ some e → key_at (arena_of es) i ≡ some e.0
  unfolding key_at
  key_at-arena_of i p =
      rw (arena_of-spans es t.small) (key-spans_of _ t.small 0 es i (omega arith, refl) p)

  picked : ℕ → ℕ → ℕ
  picked num_shards i = min (length es * i / num_shards) (length es - 1)

  boundaries_from-Ascending :
      (num_shards i count : ℕ)
      → 1 ≤ length es
      → 1 ≤ num_shards
      → (bs : List Bytes) × (boundaries_from (arena_of es) num_shards i count ≡ some bs)
        × All IsKey bs
        × Ascending bs
        × ((i' : ℕ) (e : KeyValue)
            → get_elem? es i' ≡ some e
            → i' ≤ picked num_shards i
            → All (λ b. below b e.0 ≡ false) bs)
  unfolding boundaries_from picked
  boundaries_from-Ascending num_shards i zero some_key h = ([], refl, tt, tt, λ i' e p m. tt)
  boundaries_from-Ascending num_shards i (suc count) some_key h =
      let at = picked num_shards i in
      let (e, here) = get_elem?-lt es at (omega arith) in
      let (bs, r, kbs, abs, above) =
        boundaries_from-Ascending num_shards (i + 1) count some_key h in
      let later : picked num_shards i ≤ picked num_shards (i + 1) =
        omega (arith, div_mono (length es * i) (length es * (i + 1)) num_shards h (grind arith)) in
      (
        e.0 ∷ bs,
        rw (total_len-arena_of, key_at-arena_of at here, r) refl,
        (All-get_elem? IsKey es at t.keys here, kbs),
        (above at e here later, abs),
        λ i' e' p m.
            (below-get_elem? es i' at t.ascending p here m, above i' e' p (omega (arith, later))),
      )

largest_of-IsSource :
    (es : List KeyValue) (ess : List (List KeyValue))
    → IsSource es
    → All IsSource ess
    → (es' : List KeyValue) × IsSource es'
      × (largest_of (arena_of es) (map arena_of ess) ≡ arena_of es')
unfolding largest_of
largest_of-IsSource es [] t ts = (es, t, refl)
largest_of-IsSource es (es₁ ∷ ess) t (t₁, ts) =
    elim (Bool-cases (ltb (total_len (arena_of es₁)) (total_len (arena_of es)))) [
      | inl p ↦ let (es', t', q) = largest_of-IsSource es ess t ts in (es', t', rw p q)
      | inr p ↦ let (es', t', q) = largest_of-IsSource es₁ ess t₁ ts in (es', t', rw p q)
    ]

-- From at least one source, whichever is the largest, `pick_shard_boundaries` picks keys of it
-- without a panic, and no boundary is below one before it: what the cutting of the sources asks.
pub pick_shard_boundaries-Ascending :
    (ess : List (List KeyValue)) (num_shards : ℕ)
    → 1 ≤ length ess
    → 1 ≤ num_shards
    → All IsSource ess
    → (bs : List Bytes) × (pick_shard_boundaries (map arena_of ess) num_shards ≡ some bs)
      × All IsKey bs
      × Ascending bs
unfolding pick_shard_boundaries
pick_shard_boundaries-Ascending [] num_shards h h' ts = absurd (omega arith)
pick_shard_boundaries-Ascending (es ∷ ess) num_shards h h' (t, ts) =
    let (es', t', q) = largest_of-IsSource es ess t ts in
    elim (Bool-cases (total_len (arena_of es') == 0)) [
      | inl p ↦ ([], rw (q, p) refl, tt, tt)
      | inr p ↦
          let m : 1 ≤ length es' = ground (arith, total_len-arena_of es' t') in
          let (bs, r, kbs, abs, _) =
            boundaries_from-Ascending es' t' num_shards 1 (num_shards - 1) m h' in
          (bs, rw (q, p) r, kbs, abs)
    ]
