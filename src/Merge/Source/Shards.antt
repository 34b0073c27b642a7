-- ===== src/Merge/Source/Shards.antt =====
-- `ArenaSource` against `VecSource`: a shard of an arena is a source of the entries in its range.
use compactor.Prelude.{
  ℕ, zero, suc, ◌+◌, ◌-◌, ◌^◌, ◌≤◌, ◌<◌, ◌≡◌, refl, ap, ◌∙◌, List, [], ◌∷◌, none, some, length,
  get_elem?, take, drop, arith, leb, le→leb, if◌then◌else◌,
}
use compactor.Merge.Source.{
  KeyValue, MergeSource, VecSource, vec_source, new_vec_source, peek_vec, advance_vec, ArenaSource,
  shard, peek_arena, advance_arena, arena_source,
}
use compactor.Merge.Source.Arena.{
  bytes_of, spans_of, arena_of, arena_of-spans, length-spans_of, entry_of-spans,
}

-- `n` times `advance`.
unfoldable pub advance_n : (src : MergeSource) → ℕ → src.State → src.State
advance_n src zero s = s
advance_n src (suc n) s = advance_n src n (src.advance s)

advance_n-arena :
    (n : ℕ) (s : ArenaSource) → advance_n arena_source n s ≡ record s { pos = s.pos + n }
unfolding advance_n advance_arena
advance_n-arena zero s = let e : s.pos ≡ s.pos + 0 = omega arith in ap (λ p. record s { pos = p }) e
advance_n-arena (suc n) s =
    let e : s.pos + 1 + n ≡ s.pos + suc n = omega arith in
    advance_n-arena n (advance_arena s) ∙ ap (λ p. record s { pos = p }) e

advance_n-vec : (n : ℕ) (s : VecSource) → advance_n vec_source n s ≡ record s { pos = s.pos + n }
unfolding advance_n advance_vec
advance_n-vec zero s = let e : s.pos ≡ s.pos + 0 = omega arith in ap (λ p. record s { pos = p }) e
advance_n-vec (suc n) s =
    let e : s.pos + 1 + n ≡ s.pos + suc n = omega arith in
    advance_n-vec n (advance_vec s) ∙ ap (λ p. record s { pos = p }) e

module _ {ℓ} {A : Type ℓ} where
  get_elem?-drop_add :
      (p : ℕ) (xs : List A) (i : ℕ) → get_elem? (drop p xs) i ≡ get_elem? xs (p + i)
  get_elem?-drop_add zero xs i = let z : 0 + i ≡ i = omega arith in rw z refl
  get_elem?-drop_add (suc p) [] i = refl
  get_elem?-drop_add (suc p) (x ∷ xs) i =
      let e : suc p + i ≡ suc (p + i) = omega arith in rw e (get_elem?-drop_add p xs i)

  get_elem?-take :
      (n : ℕ) (xs : List A) (i : ℕ)
      → get_elem? (take n xs) i ≡ (if leb n i then none else get_elem? xs i)
  get_elem?-take zero xs i = ground arith
  get_elem?-take (suc n) [] i = ground arith
  get_elem?-take (suc n) (x ∷ xs) zero = ground arith
  get_elem?-take (suc n) (x ∷ xs) (suc i) = ground (arith, get_elem?-take n xs i)

-- A shard of a source that was built from entries of less than 4 GiB is what a `VecSource` of the
-- entries in its range is to a merge: after any number of `advance` calls both have the same front
-- element. No read panics.
pub shard-vec_source :
    (es : List KeyValue) (start end_idx n : ℕ)
    → length (bytes_of es) < 2 ^ 32
    → start ≤ end_idx
    → end_idx ≤ length es
    → (s : ArenaSource) × (shard (arena_of es) start end_idx ≡ some s)
      × (peek_arena (advance_n arena_source n s)
          ≡ peek_vec
              (advance_n vec_source n (new_vec_source (take (end_idx - start) (drop start es)))))
unfolding shard peek_arena peek_vec new_vec_source
shard-vec_source es start end_idx n small h h' =
    let whole = arena_of-spans es small in
    let s : ArenaSource = record {
      arena = bytes_of es;
      spans = spans_of 0 es;
      pos = start;
      end_ = end_idx;
    } in
    let z : 0 + n ≡ n = omega arith in
    (
      s,
      rw (whole, length-spans_of 0 es, le→leb _ _ h, le→leb _ _ h') refl,
      rw
          (
            advance_n-arena n s,
            advance_n-vec n (record { entries = take (end_idx - start) (drop start es); pos = 0 }),
            z,
            get_elem?-take (end_idx - start) (drop start es) n,
            get_elem?-drop_add start es n,
            entry_of-spans (record s { pos = start + n }) small 0 es (start + n)
                (omega arith, refl),
          )
          (ground arith),
    )

-- A `VecSource` hands out its entries.
pub peek_vec-new_vec_source :
    (es : List KeyValue) (n : ℕ)
    → peek_vec (advance_n vec_source n (new_vec_source es)) ≡ some (get_elem? es n)
unfolding peek_vec new_vec_source
peek_vec-new_vec_source es n =
    let z : 0 + n ≡ n = omega arith in
    rw (advance_n-vec n (record { entries = es; pos = 0 }), z) refl
