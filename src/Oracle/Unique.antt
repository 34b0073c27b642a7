-- ===== src/Oracle/Unique.antt =====
-- A list of entries with ascending keys is determined by what is found in it.
use compactor.Prelude.{
  Bytes, List, [], ◌∷◌, none, some, ◌≡◌, refl, sym, ap₂, subst, arith, inl, inr, Ordering,
  Ordering-cases,
}
use compactor.Merge.Cmp.{compare_bytes}
use compactor.Merge.Cmp.Order.{compare_bytes_refl, eq_of_compare_bytes, compare_bytes_swap}
use compactor.Merge.Source.{KeyValue}
use compactor.Oracle.TreeMap.{AllAbove, Ascending, AllAbove-trans, find, find-above}

-- Lists in ascending order of their keys are equal if they have the same values under all keys.
tail_find :
    (k : Bytes) (v w : Bytes) (xs ys : List KeyValue)
    → AllAbove k xs
    → AllAbove k ys
    → ((u : Bytes) → find ((k, v) ∷ xs) u ≡ find ((k, w) ∷ ys) u)
    → (u : Bytes) → find xs u ≡ find ys u
unfolding find
tail_find k v w xs ys hx hy h u =
    ground (arith, h u, eq_of_compare_bytes u k, find-above xs k hx, find-above ys k hy)

find_head : (k v : Bytes) (xs : List KeyValue) → find ((k, v) ∷ xs) k ≡ some v
unfolding find
find_head k v xs = rw (compare_bytes_refl k, find) refl

find_below :
    (k j w : Bytes) (ys : List KeyValue)
    → compare_bytes k j ≡ Ordering.lt
    → AllAbove j ys
    → find ((j, w) ∷ ys) k ≡ none
find_below k j w ys h hs = find-above ((j, w) ∷ ys) k (h, AllAbove-trans k j ys h hs)

pub Ascending-unique :
    (xs ys : List KeyValue)
    → Ascending xs
    → Ascending ys
    → ((u : Bytes) → find xs u ≡ find ys u)
    → xs ≡ ys
unfolding find
Ascending-unique [] [] hx hy h = refl
Ascending-unique [] ((j, w) ∷ ys) hx hy h = cc (h j, find_head j w ys)
Ascending-unique ((k, v) ∷ xs) [] hx hy h = cc (h k, find_head k v xs)
Ascending-unique ((k, v) ∷ xs) ((j, w) ∷ ys) (hx, hxs) (hy, hys) h =
    elim (Ordering-cases (compare_bytes k j)) [
      | inl lt ↦ cc (h k, find_head k v xs, find_below k j w ys lt hy)
      | inr (inl eq) ↦
          let same = eq_of_compare_bytes k j eq in
          let h' : (u : Bytes) → find ((k, v) ∷ xs) u ≡ find ((k, w) ∷ ys) u = rw (sym same) at h in
          let hy' = subst (λ x. AllAbove x ys) (sym same) hy in
          let value : v ≡ w = cc (h' k, find_head k v xs, find_head k w ys) in
          ap₂ (λ (e : KeyValue) (es : List KeyValue). e ∷ es)
            (ap₂ (λ (a b : Bytes). (a, b)) same value)
            (Ascending-unique xs ys hxs hys (tail_find k v w xs ys hx hy' h'))
      | inr (inr gt) ↦
          let lt : compare_bytes j k ≡ Ordering.lt = rw (compare_bytes_swap k j, gt) refl in
          cc (h j, find_head j w ys, find_below j k v xs lt hx)
    ]
