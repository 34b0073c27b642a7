-- ===== src/Compaction/Whole/Readers.antt =====
-- A whole compaction, against what readers see of its sources, whichever of them has a version.
use mathlib.Core.List.{Permᴰ}
use compactor.Prelude.{
  ℕ, Bytes, List, [], ◌∷◌, Option, none, some, All, ◌≡◌, ◌≢◌, refl, sym, ap, ◌∙◌, arith, true, inl,
  inr, subst,
}
use compactor.Format.Error.{Result-cases}
use compactor.Format.InternalKey.{split}
use compactor.Merge.Source.{KeyValue, ArenaSource}
use compactor.Merge.LoserTree.Sorted.{All-perm}
use compactor.Merge.Streams.{all_entries}
use compactor.Compaction.Strategy.{snapshot_aware, new_snapshot_aware, bottommost}
use compactor.Compaction.Guarantees.{newest_at_snapshot, newest-bottommost}
use compactor.Compaction.Loop.{Entry}
use compactor.Compaction.Readers.{
  is_version, is_version_ok, seen_by, seen_by_ok, seen_by_err, Covers, live,
}
use compactor.Compaction.Readers.Newest.{newest, newer, sequence_of}
use compactor.Compaction.Whole.{merged_output}
use compactor.Compaction.Whole.Sources.{Compactable, merged_output-compacted}

module _ (u : Bytes) where
  abbrev pub Apart : Entry → Entry → Type 0
  Apart a b = is_version u a ≡ true → is_version u b ≡ true → sequence_of a ≢ sequence_of b

  -- No two entries are versions of the user key with one sequence number.
  abbrev pub IsVersioned : List Entry → Type 0
  IsVersioned [] = Unit
  IsVersioned (e ∷ es) = All (Apart e) es × IsVersioned es

  Apart-swap : (a b : Entry) → Apart a b → Apart b a
  Apart-swap a b h v w e = h w v (sym e)

  IsVersioned-perm : {xs ys : List Entry} → Permᴰ xs ys → IsVersioned ys → IsVersioned xs
  IsVersioned-perm Permᴰ.nil h = h
  IsVersioned-perm (Permᴰ.cons {b} e p) (h, hs) =
      rw e (All-perm (Apart b) p h, IsVersioned-perm p hs)
  IsVersioned-perm (Permᴰ.swap {a} {b} {a' = x} {b' = y} {l} e e') ((h, hx), (hy, hl)) =
      let same : a ∷ b ∷ l ≡ y ∷ x ∷ l = cc in
      subst IsVersioned (sym same) ((Apart-swap x y h, hy), (hx, hl))
  IsVersioned-perm (Permᴰ.trans p q) h = IsVersioned-perm p (IsVersioned-perm q h)

  pub seen_version : (r : ℕ) (e : Entry) → seen_by u r e ≡ true → is_version u e ≡ true
  seen_version r e h = elim (Result-cases (split e.0)) [
    | inl (ik, p) ↦ ground (arith, seen_by_ok u r e ik p, is_version_ok u e ik p)
    | inr (x, p) ↦ cc (seen_by_err u r e p)
  ]

  newer_comm :
      (a b : Entry) (n : Option Entry)
      → sequence_of a ≢ sequence_of b
      → newer a (newer b n) ≡ newer b (newer a n)
  unfolding newer
  newer_comm a b none h = ground arith
  newer_comm a b (some f) h = ground arith

  newest-swap :
      (r : ℕ) (a b : Entry) (es : List Entry)
      → Apart a b
      → newest u r (a ∷ b ∷ es) ≡ newest u r (b ∷ a ∷ es)
  unfolding newest
  newest-swap r a b es h =
      ground (arith, newer_comm a b (newest u r es), seen_version r a, seen_version r b, h)

  pub newest-perm :
      (r : ℕ) {xs ys : List Entry} → Permᴰ xs ys → IsVersioned ys → newest u r xs ≡ newest u r ys
  unfolding newest
  newest-perm r Permᴰ.nil h = refl
  newest-perm r (Permᴰ.cons {b} e p) (h, hs) = rw (e, newest-perm r p hs) refl
  newest-perm r (Permᴰ.swap {a} {b} {a' = x} {b' = y} {l} e e') ((h, hx), hs) =
      let same : a ∷ b ∷ l ≡ y ∷ x ∷ l = cc in
      subst (λ xs. newest u r xs ≡ newest u r (x ∷ y ∷ l)) (sym same) (sym (newest-swap r x y l h))
  newest-perm r (Permᴰ.trans p q) h = newest-perm r p (IsVersioned-perm q h) ∙ newest-perm r q h

module _ (u : Bytes) (sources : List ArenaSource) (ess : List (List KeyValue))
    (c : Compactable sources ess) (versioned : IsVersioned u (all_entries ess)) where
  -- A snapshot compaction of sources in order, none of whose versions of the user key has the
  -- sequence number of another, does not panic, and a reader at the snapshot finds in the output
  -- the newest version that it finds in the sources, tombstones included, or none in both.
  pub sources-newest_at_snapshot :
      (snapshot : ℕ)
      → (out : List Entry) × (merged_output snapshot_aware (new_snapshot_aware snapshot) sources
          ≡ some out)
        × (newest u snapshot out ≡ newest u snapshot (all_entries ess))
  sources-newest_at_snapshot snapshot =
      let (merged, e, p, m) =
        merged_output-compacted snapshot_aware (new_snapshot_aware snapshot) sources ess c in
      (_, e, newest_at_snapshot u merged m snapshot ∙ newest-perm u snapshot p versioned)

  -- A bottommost compaction of such sources does not panic, and a reader that is at least as new as
  -- all versions of the user key finds in the output the newest of them in the sources, or nothing
  -- where that is a tombstone.
  pub sources-newest-live :
      (r : ℕ)
      → Covers u r (all_entries ess)
      → (out : List Entry) × (merged_output bottommost tt sources ≡ some out)
        × (newest u r out ≡ live (newest u r (all_entries ess)))
  sources-newest-live r covers =
      let (merged, e, p, m) = merged_output-compacted bottommost tt sources ess c in
      (
        _,
        e,
        newest-bottommost u merged m r
              (All-perm (λ x. is_version u x ≡ true → seen_by u r x ≡ true) p covers)
            ∙ ap live (newest-perm u r p versioned),
      )
