-- ===== src/Merge/Cmp/Prefix.antt =====
-- The contract of `sort_prefix`, for the byte-wise order, and what the mergers make of it.
use compactor.Prelude.{
  ℕ, zero, suc, ◌+◌, ◌-◌, ◌*◌, ◌^◌, ◌≤◌, ◌<◌, ◌≡◌, ◌≢◌, refl, ap, ◌∙◌, Bytes, [], ◌∷◌, ◌++◌, take,
  length, length-append, length-take, length-replicate, replicate, min, All, some, compare,
  Ordering, arith,
}
use compactor.Merge.Cmp.{
  KeyComparator, compare_bytes, load_be_prefix, from_be_bytes, compare_with_prefix,
}
use native.Mathlib.Nat.{pow-suc, one-le-pow}

-- The first `n` bytes, the first of them the highest, zero where the key ends.
leading : ℕ → Bytes → ℕ
leading zero xs = 0
leading (suc n) [] = 0
leading (suc n) (x ∷ xs) = x * 256 ^ n + leading n xs

zeros : (n : ℕ) → from_be_bytes (replicate n 0) ≡ 0
unfolding from_be_bytes
zeros zero = refl
zeros (suc n) = omega (arith, zeros n)

leading-lt : (n : ℕ) (xs : Bytes) → All (λ b. b < 256) xs → leading n xs < 256 ^ n
unfolding leading
leading-lt zero xs h = omega arith
leading-lt (suc n) [] h = omega (arith, one-le-pow (suc n) 256)
leading-lt (suc n) (x ∷ xs) (hx, hxs) = grind (arith, leading-lt n xs hxs, pow-suc 256 n)

-- What the tail adds cannot outweigh the head.
heads_le : (x y m a b : ℕ) → a < m → b < m → x * m + a < y * m + b → x ≤ y
heads_le x y m a b ha hb h = grind arith

leading-compare :
    (n : ℕ) (xs ys : Bytes)
    → All (λ b. b < 256) xs
    → All (λ b. b < 256) ys
    → leading n xs < leading n ys
    → (compare_bytes xs ys ≡ Ordering.lt) × (compare_bytes ys xs ≡ Ordering.gt)
unfolding leading compare_bytes
leading-compare zero xs ys hx hy h = absurd (omega arith)
leading-compare (suc n) [] [] hx hy h = absurd (omega arith)
leading-compare (suc n) [] (y ∷ ys) hx hy h = (refl, refl)
leading-compare (suc n) (x ∷ xs) [] hx hy h = absurd (omega arith)
leading-compare (suc n) (x ∷ xs) (y ∷ ys) (hx, hxs) (hy, hys) h = ground (
  arith,
  heads_le x y (256 ^ n) (leading n xs) (leading n ys) (leading-lt n xs hxs) (leading-lt n ys hys),
  leading-compare n xs ys hxs hys,
)

abbrev padded : ℕ → Bytes → Bytes
padded n key = let m = min (length key) n in take m key ++ replicate (n - m) 0

length-padded : (n : ℕ) (key : Bytes) → length (padded n key) ≡ n
length-padded n key =
    let m = min (length key) n in
    length-append (take m key) (replicate (n - m) 0)
    ∙ omega (arith, length-take m key, length-replicate {A = ℕ} (n - m) 0)

padded-cons : (n x : ℕ) (xs : Bytes) → padded (suc n) (x ∷ xs) ≡ x ∷ padded n xs
padded-cons n x xs =
    let e : min (suc (length xs)) (suc n) ≡ suc (min (length xs) n) = omega arith in
    let d : suc n - suc (min (length xs) n) ≡ n - min (length xs) n = omega arith in rw (e, d)

from_be_bytes-padded : (n : ℕ) (key : Bytes) → from_be_bytes (padded n key) ≡ leading n key
unfolding from_be_bytes leading
from_be_bytes-padded zero [] = refl
from_be_bytes-padded zero (x ∷ xs) = let e : min (suc (length xs)) 0 ≡ 0 = omega arith in rw e
from_be_bytes-padded (suc n) [] =
    let z : min 0 (suc n) ≡ 0 = omega arith in
    let d : suc n - 0 ≡ suc n = omega arith in rw (z, d) (zeros (suc n))
from_be_bytes-padded (suc n) (x ∷ xs) =
    ap from_be_bytes (padded-cons n x xs)
    ∙ omega (arith, ap (λ (k : ℕ). x * 256 ^ k) (length-padded n xs), from_be_bytes-padded n xs)

load_be_prefix-leading : (key : Bytes) → load_be_prefix key ≡ leading 8 key
unfolding load_be_prefix
load_be_prefix-leading key = from_be_bytes-padded 8 key

-- Where the prefixes of two byte strings differ, they compare as the byte strings do: the
-- contract that `KeyComparator::sort_prefix` states, met by `load_be_prefix` for `compare_bytes`.
pub load_be_prefix-compare_bytes :
    (a b : Bytes)
    → All (λ x. x < 256) a
    → All (λ x. x < 256) b
    → load_be_prefix a ≢ load_be_prefix b
    → compare (load_be_prefix a) (load_be_prefix b) ≡ compare_bytes a b
load_be_prefix-compare_bytes a b ha hb differ = ground (
  arith,
  load_be_prefix-leading a,
  load_be_prefix-leading b,
  leading-compare 8 a b ha hb,
  leading-compare 8 b a hb ha,
)

-- The contract of the trait, on the keys that `Valid` names.
abbrev pub PrefixContract : (Bytes → Type 0) → KeyComparator → Type 0
PrefixContract Valid c =
    (a b : Bytes)
    → Valid a
    → Valid b
    → c.sort_prefix a ≢ c.sort_prefix b
    → c.cmp a b ≡ some (compare (c.sort_prefix a) (c.sort_prefix b))

-- With a comparator that keeps the contract of `sort_prefix`, the fast path of the mergers gives
-- the answer of the full comparison, whether the comparator turns the fast path on or not.
pub compare_with_prefix-cmp :
    (Valid : Bytes → Type 0) (c : KeyComparator) (a b : Bytes)
    → PrefixContract Valid c
    → Valid a
    → Valid b
    → compare_with_prefix c a b ≡ c.cmp a b
unfolding compare_with_prefix
compare_with_prefix-cmp Valid c a b contract va vb = ground (arith, contract a b va vb)
