-- ===== src/Compaction/Readers.antt =====
-- What a reader of the database sees of a list of entries: the description against which the
-- compaction loop is proved. Nothing here models code of the repository.
pub mod Newest
use compactor.Prelude.{
  ℕ, ◌+◌, ◌≤◌, leb, ltb, Bool, true, false, ◌&&◌, Bytes, List, [], ◌∷◌, Option, none, some,
  if◌then◌else◌, ◌≡◌, refl, ◌==◌, arith, All, ◌>>=◌, Ordering, ◌⊎◌,
}
use compactor.Format.Error.{ok, err, Error}
use compactor.Format.InternalKey.{InternalKey, split}
use compactor.Compaction.Loop.{Entry, bytes_eq}
use compactor.Compaction.Loop.Emit.{keep_if}
use compactor.Compaction.Strategy.{is_tombstone, KeepDecision, keep, drop}
use compactor.Merge.Cmp.{compare_internal_keys}

-- `e` is a version of the user key `u`.
unfoldable pub is_version : Bytes → Entry → Bool
is_version u e = elim (split e.0) [ err _ ↦ false | ok ik ↦ bytes_eq ik.user_key u ]

-- `e` is a version of `u` that a reader at sequence number `r` may see.
unfoldable pub seen_by : Bytes → ℕ → Entry → Bool
seen_by u r e = elim (split e.0) [
  | err _ ↦ false
  | ok ik ↦ bytes_eq ik.user_key u && leb ik.sequence r
]

-- The first entry that such a reader may see.
unfoldable pub visible : Bytes → ℕ → List Entry → Option Entry
visible u r [] = none
visible u r (e ∷ es) = if seen_by u r e then some e else visible u r es

-- A tombstone hides the key.
unfoldable pub live : Option Entry → Option Entry
live none = none
live (some e) = elim (split e.0) [
  | err _ ↦ none
  | ok ik ↦ if is_tombstone ik.value_type then none else some e
]

-- No version of `u` is newer than `r`.
abbrev pub Covers : Bytes → ℕ → List Entry → Type 0
Covers u r = All (λ e. is_version u e ≡ true → seen_by u r e ≡ true)

-- The merge order: by `compare_internal_keys`, with no panic.
abbrev pub Precedes : Entry → Entry → Type 0
Precedes a b =
    (compare_internal_keys a.0 b.0 ≡ some Ordering.lt)
    ⊎ (compare_internal_keys a.0 b.0 ≡ some Ordering.eq)

abbrev pub IsMerged : List Entry → Type 0
IsMerged [] = Unit
IsMerged (e ∷ es) = All (Precedes e) es × IsMerged es

module _ (u : Bytes) (r : ℕ) (e : Entry) where
  pub seen_by_ok :
      (ik : InternalKey)
      → split e.0 ≡ ok ik
      → seen_by u r e ≡ (bytes_eq ik.user_key u && leb ik.sequence r)
  unfolding seen_by
  seen_by_ok ik p = rw (p, seen_by)

  pub seen_by_err : {x : Error} → split e.0 ≡ err x → seen_by u r e ≡ false
  unfolding seen_by
  seen_by_err p = rw (p, seen_by)

  pub visible_seen : (es : List Entry) → seen_by u r e ≡ true → visible u r (e ∷ es) ≡ some e
  unfolding visible
  visible_seen es p = rw p

  pub visible_unseen :
      (es : List Entry) → seen_by u r e ≡ false → visible u r (e ∷ es) ≡ visible u r es
  unfolding visible
  visible_unseen es p = rw p

pub is_version_ok :
    (u : Bytes) (e : Entry) (ik : InternalKey)
    → split e.0 ≡ ok ik
    → is_version u e ≡ bytes_eq ik.user_key u
unfolding is_version
is_version_ok u e ik p = rw (p, is_version)

pub visible-keep_if :
    (u : Bytes) (r : ℕ) (d : KeepDecision) (e : Entry) (es : List Entry)
    → seen_by u r e ≡ false
    → visible u r (keep_if d e es) ≡ visible u r es
visible-keep_if u r drop e es p = refl
visible-keep_if u r keep e es p = visible_unseen u r e es p

pub bytes_eq_lem : (a b : Bytes) → bytes_eq a b ≡ true → a ≡ b
unfolding bytes_eq
bytes_eq_lem [] [] e = refl
bytes_eq_lem [] (y ∷ b) e = cc
bytes_eq_lem (x ∷ a) [] e = cc
bytes_eq_lem (x ∷ a) (y ∷ b) e = ground (arith, bytes_eq_lem a b)

pub bytes_eq_refl : (u : Bytes) → bytes_eq u u ≡ true
unfolding bytes_eq
bytes_eq_refl [] = refl
bytes_eq_refl (x ∷ u) = ground (arith, bytes_eq_refl u)

pub seen_user :
    (u : Bytes) (r : ℕ) (e : Entry) (ik : InternalKey)
    → split e.0 ≡ ok ik
    → seen_by u r e ≡ true
    → ik.user_key ≡ u
seen_user u r e ik p h = bytes_eq_lem ik.user_key u (ground (arith, seen_by_ok u r e ik p))

pub live_ok :
    (e : Entry) (ik : InternalKey)
    → split e.0 ≡ ok ik
    → live (some e) ≡ (if is_tombstone ik.value_type then none else some e)
unfolding live
live_ok e ik p = rw (p, live)

pub live-none : live none ≡ none
unfolding live
live-none = refl
