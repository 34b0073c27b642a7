-- ===== src/Oracle/TreeMap.antt =====
-- The laws of the map that the naive compaction keeps.
use compactor.Prelude.{
  Bytes, List, [], ◌∷◌, Option, none, some, if◌then◌else◌, ◌≡◌, ◌≢◌, refl, arith, Ordering, leb,
}
use compactor.Merge.Cmp.{compare_bytes}
use compactor.Merge.Cmp.Order.{
  compare_bytes_refl, eq_of_compare_bytes, compare_bytes_swap, compare_bytes_trans,
}
use compactor.Merge.Source.{KeyValue}
use compactor.Oracle.{Version, TreeMap, get, insert, keep_newest, survivors}

-- Every key of the list is above `u`.
abbrev pub AllAbove {ℓ} : {A : Type ℓ} → Bytes → List (Bytes × A) → Type 0
AllAbove u [] = Unit
AllAbove u ((k, v) ∷ best) = (compare_bytes u k ≡ Ordering.lt) × AllAbove u best

-- The keys ascend, and so are different.
abbrev pub Ascending {ℓ} : {A : Type ℓ} → List (Bytes × A) → Type 0
Ascending [] = Unit
Ascending ((k, v) ∷ best) = AllAbove k best × Ascending best

compare_distinct : (a b : Bytes) → a ≢ b → compare_bytes a b ≢ Ordering.eq
compare_distinct a b h e = h (eq_of_compare_bytes a b e)

pub get-insert_self : (best : TreeMap) (u : Bytes) (v : Version) → get (insert best u v) u ≡ some v
unfolding get insert
get-insert_self [] u v = ground (arith, compare_bytes_refl u)
get-insert_self ((k, w) ∷ best) u v = ground (arith, compare_bytes_refl u, get-insert_self best u v)

pub get-insert_other :
    (best : TreeMap) (u : Bytes) (v : Version) (x : Bytes)
    → x ≢ u
    → get (insert best u v) x ≡ get best x
unfolding get insert
get-insert_other [] u v x h = ground (arith, compare_distinct x u h)
get-insert_other ((k, w) ∷ best) u v x h =
    ground (arith, compare_distinct x u h, eq_of_compare_bytes u k, get-insert_other best u v x h)

AllAbove-insert :
    (a : Bytes) (best : TreeMap) (u : Bytes) (v : Version)
    → compare_bytes a u ≡ Ordering.lt
    → AllAbove a best
    → AllAbove a (insert best u v)
unfolding insert
AllAbove-insert a [] u v h t = (h, tt)
AllAbove-insert a ((k, w) ∷ best) u v h (t, ts) = ground (arith, AllAbove-insert a best u v h ts)

pub AllAbove-trans {ℓ} :
    {A : Type ℓ} (a b : Bytes) (best : List (Bytes × A))
    → compare_bytes a b ≡ Ordering.lt
    → AllAbove b best
    → AllAbove a best
AllAbove-trans a b [] h t = tt
AllAbove-trans a b ((k, v) ∷ best) h (t, ts) =
    (compare_bytes_trans a b k h t, AllAbove-trans a b best h ts)

pub Ascending-insert :
    (best : TreeMap) (u : Bytes) (v : Version) → Ascending best → Ascending (insert best u v)
unfolding insert
Ascending-insert [] u v h = (tt, tt)
Ascending-insert ((k, w) ∷ best) u v (h, hs) = ground (
  arith,
  Ascending-insert best u v hs,
  AllAbove-trans u k best,
  AllAbove-insert k best u v,
  compare_bytes_swap u k,
  eq_of_compare_bytes u k,
  h,
)

pub Ascending-keep_newest :
    (best : TreeMap) (u : Bytes) (v : Version) → Ascending best → Ascending (keep_newest best u v)
unfolding keep_newest
Ascending-keep_newest best u v h = ground (arith, Ascending-insert best u v h, h)

-- What is found under a key after a version of it was recorded.
unfoldable pub later : Option Version → Version → Option Version
later none v = some v
later (some e) v = if leb v.seq e.seq then some e else some v

pub get-keep_newest_self :
    (best : TreeMap) (u : Bytes) (v : Version) → get (keep_newest best u v) u ≡ later (get best u) v
unfolding keep_newest later
get-keep_newest_self best u v = ground (arith, get-insert_self best u v)

pub get-keep_newest_other :
    (best : TreeMap) (u : Bytes) (v : Version) (x : Bytes)
    → x ≢ u
    → get (keep_newest best u v) x ≡ get best x
unfolding keep_newest
get-keep_newest_other best u v x h = ground (arith, get-insert_other best u v x h)

-- The value under a key of a list of entries.
unfoldable pub find : List KeyValue → Bytes → Option Bytes
find [] u = none
find ((k, v) ∷ es) u = elim (compare_bytes u k) [ Ordering.eq ↦ some v | _ ↦ find es u ]

-- The value of a version that hides nothing.
unfoldable pub shown : Option Version → Option Bytes
shown none = none
shown (some v) = if v.hides then none else some v.value

pub find-above : (es : List KeyValue) (u : Bytes) → AllAbove u es → find es u ≡ none
unfolding find
find-above [] u h = refl
find-above ((k, v) ∷ es) u (h, hs) = ground (arith, find-above es u hs)

AllAbove-survivors : (u : Bytes) (best : TreeMap) → AllAbove u best → AllAbove u (survivors best)
unfolding survivors
AllAbove-survivors u [] h = tt
AllAbove-survivors u ((k, v) ∷ best) (h, hs) = ground (arith, AllAbove-survivors u best hs)

pub Ascending-survivors : (best : TreeMap) → Ascending best → Ascending (survivors best)
unfolding survivors
Ascending-survivors [] h = tt
Ascending-survivors ((k, v) ∷ best) (h, hs) =
    ground (arith, Ascending-survivors best hs, AllAbove-survivors k best h)

pub find-survivors :
    (best : TreeMap) (u : Bytes) → Ascending best → find (survivors best) u ≡ shown (get best u)
unfolding survivors get find shown
find-survivors [] u h = refl
find-survivors ((k, v) ∷ best) u (h, hs) = ground (
  arith,
  find-survivors best u hs,
  eq_of_compare_bytes u k,
  find-above (survivors best) k (AllAbove-survivors k best h),
)
