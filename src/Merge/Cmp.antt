-- ===== src/Merge/Cmp.antt =====
-- crates/compactor/src/merge/cmp.rs. A comparator is a record of its functions; `none` is the
-- panic of `split` on a key that is shorter than the suffix.
pub mod Order
pub mod Total
pub mod Prefix
use compactor.Prelude.{
  ℕ, ◌-◌, Bool, false, Bytes, [], ◌∷◌, ◌++◌, take, drop, length, replicate, min, ltb, Option, none,
  some, compare, Ordering, if◌then◌else◌, ◌>>=◌, ◌*◌, ◌+◌, ◌^◌,
}
use compactor.Format.Fixed.{from_le_bytes}

abbrev suffix_len : ℕ
suffix_len = 8

-- `<[u8] as Ord>::cmp`
unfoldable pub compare_bytes : Bytes → Bytes → Ordering
compare_bytes [] [] = Ordering.eq
compare_bytes [] (y ∷ ys) = Ordering.lt
compare_bytes (x ∷ xs) [] = Ordering.gt
compare_bytes (x ∷ xs) (y ∷ ys) = elim (compare x y) [
  | Ordering.lt ↦ Ordering.lt
  | Ordering.eq ↦ compare_bytes xs ys
  | Ordering.gt ↦ Ordering.gt
]

pub record KeyComparator : Type 0 where
  pub cmp : Bytes → Bytes → Option Ordering
  pub has_sort_prefix : Bool
  pub sort_prefix : Bytes → ℕ

-- `u64::from_be_bytes` of a whole buffer
unfoldable pub from_be_bytes : Bytes → ℕ
from_be_bytes [] = 0
from_be_bytes (b ∷ bs) = b * 256 ^ length bs + from_be_bytes bs

unfoldable pub load_be_prefix : Bytes → ℕ
load_be_prefix key = let n = min (length key) 8 in from_be_bytes (take n key ++ replicate (8 - n) 0)

unfoldable pub split : Bytes → Option (Bytes × Bytes)
split key =
    if ltb (length key) suffix_len
    then none
    else let at = length key - suffix_len in some (take at key, drop at key)

unfoldable pub user_key : Bytes → Option Bytes
user_key internal_key = do (user, _) ← split internal_key; some user

-- The user key upwards, then the packed suffix downwards.
unfoldable pub compare_suffixed : Bytes × Bytes → Bytes × Bytes → Ordering
compare_suffixed (a_user, a_suffix) (b_user, b_suffix) = elim (compare_bytes a_user b_user) [
  | Ordering.eq ↦ compare (from_le_bytes b_suffix) (from_le_bytes a_suffix)
  | Ordering.lt ↦ Ordering.lt
  | Ordering.gt ↦ Ordering.gt
]

unfoldable pub compare_internal_keys : Bytes → Bytes → Option Ordering
compare_internal_keys a b = do a' ← split a; b' ← split b; some (compare_suffixed a' b')

unfoldable pub compare_user_keys : Bytes → Bytes → Option Ordering
compare_user_keys a b = do a' ← user_key a; b' ← user_key b; some (compare_bytes a' b')

-- The trait's defaults: no fast path, and 0 for a prefix.
abbrev pub internal_key_comparator : KeyComparator
internal_key_comparator = record {
  cmp = compare_internal_keys;
  has_sort_prefix = false;
  sort_prefix = λ key. 0;
}

abbrev pub bytewise_comparator : KeyComparator
bytewise_comparator = record {
  cmp = λ a b. some (compare_bytes a b);
  has_sort_prefix = false;
  sort_prefix = load_be_prefix;
}

-- merger.rs, `compare_with_prefix`
unfoldable pub compare_with_prefix : KeyComparator → Bytes → Bytes → Option Ordering
compare_with_prefix c a b =
    if c.has_sort_prefix
    then elim (compare (c.sort_prefix a) (c.sort_prefix b)) [
      | Ordering.eq ↦ c.cmp a b
      | Ordering.lt ↦ some Ordering.lt
      | Ordering.gt ↦ some Ordering.gt
    ]
    else c.cmp a b
