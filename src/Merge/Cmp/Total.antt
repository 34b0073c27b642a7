-- ===== src/Merge/Cmp/Total.antt =====
-- The order of internal keys as a total order, which is what a merge asks of its comparator.
use compactor.Prelude.{
  ◌-◌, ◌≤◌, Ordering, false, Bytes, some, take, drop, length, ◌≡◌, refl, subst, arith, le→ltb,
}
use compactor.Merge.Cmp.{
  compare_bytes, compare_suffixed, compare_internal_keys, compare_with_prefix, split,
  internal_key_comparator,
}
use compactor.Merge.Cmp.Order.{
  compare_bytes_swap, compare_bytes_trans, eq_of_compare_bytes, opposite,
}
use compactor.Merge.LoserTree.{is_less}
use compactor.Merge.LoserTree.Fronts.{IsOrder}

-- A key with its suffix cut off, and the suffix.
abbrev pub parts : Bytes → Bytes × Bytes
parts k = (take (length k - 8) k, drop (length k - 8) k)

abbrev pub order_of : Bytes → Bytes → Ordering
order_of a b = compare_suffixed (parts a) (parts b)

-- Where neither step descends, the whole does not, and stays level only if both steps do.
bytes_steps :
    (a b x : Bytes)
    → is_less (compare_bytes b a) ≡ false
    → is_less (compare_bytes x b) ≡ false
    → (is_less (compare_bytes x a) ≡ false)
      × (compare_bytes x a ≡ Ordering.eq
          → (compare_bytes b a ≡ Ordering.eq) × (compare_bytes x b ≡ Ordering.eq))
bytes_steps a b x h h' = (
  ground (
    arith,
    compare_bytes_swap a b,
    compare_bytes_swap b x,
    eq_of_compare_bytes b a,
    eq_of_compare_bytes x b,
    compare_bytes_trans x a b,
    compare_bytes_trans x b a,
    compare_bytes_swap b a,
    compare_bytes_swap x b,
  ),
  λ e.
      let same = eq_of_compare_bytes x a e in
      let h'' : is_less (compare_bytes a b) ≡ false =
        subst (λ (y : Bytes). is_less (compare_bytes y b) ≡ false) same h' in
      (ground (arith, compare_bytes_swap a b), rw same (ground (arith, compare_bytes_swap a b))),
)

pub compare_suffixed_swap :
    (a b : Bytes × Bytes) → compare_suffixed b a ≡ opposite (compare_suffixed a b)
unfolding compare_suffixed
compare_suffixed_swap (ua, sa) (ub, sb) = ground (arith, compare_bytes_swap ua ub)

pub compare_suffixed_trans :
    (a b x : Bytes × Bytes)
    → is_less (compare_suffixed b a) ≡ false
    → is_less (compare_suffixed x b) ≡ false
    → is_less (compare_suffixed x a) ≡ false
unfolding compare_suffixed
compare_suffixed_trans (ua, sa) (ub, sb) (ux, sx) h h' = ground (arith, bytes_steps ua ub ux)

pub compare_internal_keys-order_of :
    (a b : Bytes) → 8 ≤ length a → 8 ≤ length b → compare_internal_keys a b ≡ some (order_of a b)
unfolding compare_internal_keys split
compare_internal_keys-order_of a b ha hb = rw (le→ltb _ _ ha, le→ltb _ _ hb) refl

pub answers_lem :
    (a b : Bytes)
    → 8 ≤ length a
    → 8 ≤ length b
    → compare_with_prefix internal_key_comparator a b ≡ some (order_of a b)
unfolding compare_with_prefix
answers_lem = compare_internal_keys-order_of

-- On keys with a suffix the internal key comparator answers as a total order.
abbrev pub internal_key_order : IsOrder internal_key_comparator (λ k. 8 ≤ length k)
internal_key_order = record {
  order = order_of;
  answers = answers_lem;
  swap = λ a b. compare_suffixed_swap (parts a) (parts b);
  trans = λ a b x. compare_suffixed_trans (parts a) (parts b) (parts x);
}
