-- ===== src/Examples/Merge.antt =====
-- Runs of the comparators, and their theorems at concrete keys.
use compactor.Prelude.{
  [], ◌∷◌, ◌<◌, ◌≡◌, ◌≢◌, refl, sym, ap, some, true, Bytes, All, Ordering, compare, arith,
}
use compactor.Format.Fixed.{from_le_bytes}
use compactor.Merge.Cmp
use compactor.Merge.Cmp.{
  KeyComparator, compare_bytes, compare_internal_keys, compare_suffixed, load_be_prefix,
  from_be_bytes, bytewise_comparator, compare_with_prefix,
}
use compactor.Merge.Cmp.Prefix.{
  load_be_prefix-compare_bytes, compare_with_prefix-cmp, PrefixContract,
}

abbrev first_key : Bytes
first_key = b'a' ∷ b'b' ∷ []

abbrev second_key : Bytes
second_key = b'a' ∷ b'c' ∷ 0 ∷ []

prefixes_differ : load_be_prefix first_key ≢ load_be_prefix second_key
unfolding load_be_prefix from_be_bytes
prefixes_differ = omega arith

-- The newer of two versions comes first.
newer_first :
    compare_internal_keys
      (b'k' ∷ 1 ∷ 10 ∷ 0 ∷ 0 ∷ 0 ∷ 0 ∷ 0 ∷ 0 ∷ [])
      (b'k' ∷ 1 ∷ 5 ∷ 0 ∷ 0 ∷ 0 ∷ 0 ∷ 0 ∷ 0 ∷ [])
    ≡ some Ordering.lt
unfolding compare_internal_keys compare_suffixed compare_bytes Cmp.split from_le_bytes
newer_first = refl

load_be_prefix-compare_bytes_example :
    compare (load_be_prefix first_key) (load_be_prefix second_key)
    ≡ compare_bytes first_key second_key
load_be_prefix-compare_bytes_example =
    load_be_prefix-compare_bytes first_key second_key (omega arith) (omega arith) prefixes_differ

-- The byte-wise comparator with its fast path turned on.
abbrev fast_bytewise : KeyComparator
fast_bytewise = record bytewise_comparator { has_sort_prefix = true }

abbrev IsBytes : Bytes → Type 0
IsBytes = All (λ b. b < 256)

fast_bytewise_contract : PrefixContract IsBytes fast_bytewise
fast_bytewise_contract a b ha hb differ =
    ap some (sym (load_be_prefix-compare_bytes a b ha hb differ))

compare_with_prefix-cmp_example :
    compare_with_prefix fast_bytewise first_key second_key
    ≡ some (compare_bytes first_key second_key)
compare_with_prefix-cmp_example =
    compare_with_prefix-cmp IsBytes fast_bytewise first_key second_key fast_bytewise_contract
      (omega arith) (omega arith)
