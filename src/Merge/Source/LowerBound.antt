-- ===== src/Merge/Source/LowerBound.antt =====
-- `lower_bound` on a source that was built from entries in the order of their user keys.
use compactor.Prelude.{
  ℕ, zero, suc, ◌+◌, ◌-◌, ◌^◌, ◌≤◌, ◌<◌, ◌≡◌, refl, sym, ap, Bytes, List, [], ◌∷◌, ◌++◌, map, subst,
  Bool, true, false, some, length, get_elem?, take, At, arith, ltb, le→ltb, if◌then◌else◌, All,
  Ordering, ◌⊎◌,
}
use compactor.Merge.Cmp.{compare_bytes, split, user_key, compare_user_keys}
use compactor.Merge.Cmp.Order.{
  compare_bytes_refl, compare_bytes_trans, compare_bytes_swap, eq_of_compare_bytes,
}
use compactor.Merge.Source.{KeyValue, ArenaSource, partition_point, lower_bound}
use compactor.Merge.Source.Arena.{
  bytes_of, spans_of, arena_of, arena_of-spans, key-span_at, At-next,
}

-- The part of a key in front of its 8-byte suffix.
abbrev pub user : Bytes → Bytes
user k = take (length k - 8) k

-- The user key of `a` is below that of `b`.
unfoldable pub below : Bytes → Bytes → Bool
below a b = elim (compare_bytes (user a) (user b)) [ Ordering.lt ↦ true | _ ↦ false ]

-- Keys with a suffix.
abbrev pub IsKey : Bytes → Type 0
IsKey k = 8 ≤ length k

-- No key is below one before it.
abbrev pub Ascending : List Bytes → Type 0
Ascending [] = Unit
Ascending (k ∷ ks) = All (λ k'. below k' k ≡ false) ks × Ascending ks

compare_user_keys-below :
    (a b : Bytes)
    → IsKey a
    → IsKey b
    → compare_user_keys a b ≡ some (compare_bytes (user a) (user b))
unfolding compare_user_keys user_key split
compare_user_keys-below a b ha hb = rw (le→ltb _ _ ha, le→ltb _ _ hb) refl

ordered :
    (xs ys zs : Bytes)
    → compare_bytes xs zs ≡ Ordering.lt
    → (compare_bytes xs ys ≡ Ordering.lt) ⊎ (compare_bytes ys zs ≡ Ordering.lt)
ordered xs ys zs h =
    ground
      (arith, compare_bytes_swap xs ys, eq_of_compare_bytes xs ys, compare_bytes_trans ys xs zs)

-- What is not above a key that is below `b` is below `b`.
pub below_first : (a b c : Bytes) → below a b ≡ true → below a c ≡ false → below c b ≡ true
unfolding below
below_first a b c h h' = ground (arith, ordered (user a) (user c) (user b))

-- What is below `a` is below all that `a` is not above.
pub below_last : (a b c : Bytes) → below c a ≡ true → below b a ≡ false → below c b ≡ true
unfolding below
below_last a b c h h' = ground (arith, ordered (user c) (user b) (user a))

-- The entries in front that are below `b`.
unfoldable pub count_below : Bytes → List KeyValue → ℕ
count_below b [] = 0
count_below b ((k, v) ∷ es) = if below k b then suc (count_below b es) else 0

pub count_below-length : (b : Bytes) (es : List KeyValue) → count_below b es ≤ length es
unfolding count_below
count_below-length b [] = omega arith
count_below-length b ((k, v) ∷ es) = ground (arith, count_below-length b es)

pub count_below_mono :
    (b b' : Bytes) (es : List KeyValue) → below b' b ≡ false → count_below b es ≤ count_below b' es
unfolding count_below
count_below_mono b b' [] h = omega arith
count_below_mono b b' ((k, v) ∷ es) h =
    ground (arith, below_last b b' k, count_below_mono b b' es h)

pub All-get_elem? :
    (P : Bytes → Type 0) (es : List KeyValue) (i : ℕ) {e : KeyValue}
    → All P (map (λ e. e.0) es)
    → get_elem? es i ≡ some e
    → P e.0
All-get_elem? P [] i all p = cc
All-get_elem? P (x ∷ es) zero {e} (h, all) p =
    let same : x ≡ e = cc in subst P (ap (λ (y : KeyValue). y.0) same) h
All-get_elem? P (x ∷ es) (suc i) (h, all) p = All-get_elem? P es i all p

-- The entries below `b` are those in front of the count.
pub below-count_below :
    (b : Bytes) (es : List KeyValue) (i : ℕ) {e : KeyValue}
    → Ascending (map (λ e. e.0) es)
    → get_elem? es i ≡ some e
    → below e.0 b ≡ ltb i (count_below b es)
unfolding count_below
below-count_below b [] i asc p = cc
below-count_below b ((k, v) ∷ es) zero {e} asc p =
    let same : (k, v) ≡ e = cc in rw (sym (ap (λ (y : KeyValue). y.0) same)) (ground arith)
below-count_below b ((k, v) ∷ es) (suc i) {e} (first, asc) p = ground (
  arith,
  below-count_below b es i asc p,
  All-get_elem? (λ k'. below k' k ≡ false) es i first p,
  below_first e.0 b k,
)

module _ (s : ArenaSource) (small : length s.arena < 2 ^ 32) (b : Bytes) (hb : IsKey b) where
  partition_point-count_below :
      (off : ℕ) (es : List KeyValue)
      → At s.arena off (bytes_of es)
      → All IsKey (map (λ e. e.0) es)
      → partition_point s b (spans_of off es) ≡ some (count_below b es)
  unfolding partition_point count_below spans_of bytes_of below
  partition_point-count_below off [] at keys = refl
  partition_point-count_below off ((k, v) ∷ es) at (hk, keys) =
      rw
        (
          key-span_at s small off k (v ++ bytes_of es) v at,
          compare_user_keys-below k b hk hb,
          partition_point-count_below (off + length k + length v) es (At-next s small off k v es at)
              keys,
        )
        (ground arith)

pub lower_bound-count_below :
    (b : Bytes) (es : List KeyValue)
    → length (bytes_of es) < 2 ^ 32
    → IsKey b
    → All IsKey (map (λ e. e.0) es)
    → lower_bound (arena_of es) b ≡ some (count_below b es)
unfolding lower_bound
lower_bound-count_below b es small hb keys =
    rw (arena_of-spans es small)
      (partition_point-count_below _ small b hb 0 es (omega arith, refl) keys)

pub below_self : (k : Bytes) → below k k ≡ false
unfolding below
below_self k = rw (compare_bytes_refl (user k), below) refl
