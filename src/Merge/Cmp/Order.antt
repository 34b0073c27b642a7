-- ===== src/Merge/Cmp/Order.antt =====
-- The orders of cmp.rs are linear.
use compactor.Prelude.{compare, some, ◌⊎◌, ◌≡◌, refl, Bytes, [], ◌∷◌, Ordering, arith}
use compactor.Format.Fixed.{from_le_bytes}
use compactor.Merge.Cmp.{compare_bytes, compare_suffixed, compare_internal_keys, split}

pub compare_bytes_refl : (xs : Bytes) → compare_bytes xs xs ≡ Ordering.eq
unfolding compare_bytes
compare_bytes_refl [] = refl
compare_bytes_refl (x ∷ xs) = ground (arith, compare_bytes_refl xs)

pub eq_of_compare_bytes : (xs ys : Bytes) → compare_bytes xs ys ≡ Ordering.eq → xs ≡ ys
unfolding compare_bytes
eq_of_compare_bytes [] [] e = refl
eq_of_compare_bytes [] (y ∷ ys) e = cc
eq_of_compare_bytes (x ∷ xs) [] e = cc
eq_of_compare_bytes (x ∷ xs) (y ∷ ys) e = ground (arith, eq_of_compare_bytes xs ys)

abbrev pub opposite : Ordering → Ordering
opposite Ordering.lt = Ordering.gt
opposite Ordering.eq = Ordering.eq
opposite Ordering.gt = Ordering.lt

pub compare_bytes_swap : (xs ys : Bytes) → compare_bytes ys xs ≡ opposite (compare_bytes xs ys)
unfolding compare_bytes
compare_bytes_swap [] [] = refl
compare_bytes_swap [] (y ∷ ys) = refl
compare_bytes_swap (x ∷ xs) [] = refl
compare_bytes_swap (x ∷ xs) (y ∷ ys) = ground (arith, compare_bytes_swap xs ys)

pub compare_bytes_trans :
    (xs ys zs : Bytes)
    → compare_bytes xs ys ≡ Ordering.lt
    → compare_bytes ys zs ≡ Ordering.lt
    → compare_bytes xs zs ≡ Ordering.lt
unfolding compare_bytes
compare_bytes_trans [] [] zs p q = cc
compare_bytes_trans [] (y ∷ ys) [] p q = cc
compare_bytes_trans [] (y ∷ ys) (z ∷ zs) p q = refl
compare_bytes_trans (x ∷ xs) [] zs p q = cc
compare_bytes_trans (x ∷ xs) (y ∷ ys) [] p q = cc
compare_bytes_trans (x ∷ xs) (y ∷ ys) (z ∷ zs) p q = ground (arith, compare_bytes_trans xs ys zs)

compare_suffixed_same :
    (u sa sb : Bytes)
    → compare_suffixed (u, sa) (u, sb) ≡ compare (from_le_bytes sb) (from_le_bytes sa)
unfolding compare_suffixed
compare_suffixed_same u sa sb = rw (compare_bytes_refl u, compare_suffixed)

compare_suffixed_users :
    (u w sa sb : Bytes)
    → (some (compare_suffixed (u, sa) (w, sb)) ≡ some Ordering.lt)
      ⊎ (some (compare_suffixed (u, sa) (w, sb)) ≡ some Ordering.eq)
    → (compare_bytes u w ≡ Ordering.lt) ⊎ (compare_bytes u w ≡ Ordering.eq)
unfolding compare_suffixed
compare_suffixed_users u w sa sb h = ground arith

-- Keys of one user key compare as their packed suffixes do, the other way round.
pub compare_internal_keys_same :
    (a b u sa sb : Bytes)
    → split a ≡ some (u, sa)
    → split b ≡ some (u, sb)
    → compare_internal_keys a b ≡ some (compare (from_le_bytes sb) (from_le_bytes sa))
unfolding compare_internal_keys
compare_internal_keys_same a b u sa sb p q = rw (p, q, compare_suffixed_same u sa sb)

-- In merge order the user keys do not descend.
pub compare_internal_keys_users :
    (a b u w sa sb : Bytes)
    → split a ≡ some (u, sa)
    → split b ≡ some (w, sb)
    → (compare_internal_keys a b ≡ some Ordering.lt)
      ⊎ (compare_internal_keys a b ≡ some Ordering.eq)
    → (compare_bytes u w ≡ Ordering.lt) ⊎ (compare_bytes u w ≡ Ordering.eq)
unfolding compare_internal_keys
compare_internal_keys_users a b u w sa sb p q h = compare_suffixed_users u w sa sb (rw (p, q) at h)
