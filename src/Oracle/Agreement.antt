-- ===== src/Oracle/Agreement.antt =====
-- The naive compaction and the bottommost compaction agree.
use compactor.Prelude.{
  ℕ, ◌≤◌, max, le→leb, Bytes, List, [], ◌∷◌, some, All, ◌≡◌, refl, sym, ap, ◌∙◌, arith, true, inl,
  inr, Bool-cases, Ordering, ◌≢◌,
}
use compactor.Merge.Cmp.{compare_bytes}
use compactor.Merge.Cmp.Order.{eq_of_compare_bytes, compare_bytes_refl}
use compactor.Merge.LoserTree.Sorted.{All-perm, All-all_entries}
use compactor.Merge.Source.{KeyValue, ArenaSource}
use compactor.Merge.Streams.{all_entries}
use compactor.Compaction.Guarantees.{newest-bottommost}
use compactor.Compaction.Strategy.{CompactionStrategy, bottommost}
use compactor.Compaction.Loop.{Entry, bytes_eq, compacted}
use compactor.Compaction.Loop.Emit.{compacted-emit}
use compactor.Compaction.Loop.Order.{emit-All, compacted-IsMerged}
use compactor.Compaction.Readers.{
  Covers, live, visible, seen_by, seen_by_ok, is_version, is_version_ok, bytes_eq_lem,
  bytes_eq_refl,
}
use compactor.Compaction.Readers.Newest.{visible-newest}
use compactor.Compaction.Whole.{merged_output}
use compactor.Compaction.Whole.Readers.{IsVersioned, newest-perm}
use compactor.Compaction.Whole.Sources.{IsKeyed, Compactable, merged_output-compacted}
use compactor.Oracle.{naive_compact}
use compactor.Oracle.TreeMap.{find}
use compactor.Oracle.Lookup.{value_of, naive_compact-find}
use compactor.Oracle.Distinct.{user_of, stripped, split_keyed, compacted-Ascending}
use compactor.Oracle.Unique.{Ascending-unique}

-- A reader that is as new as everything.
latest :
    (es : List Entry) → All IsKeyed es → (r : ℕ) × ((s : ℕ) → r ≤ s → (u : Bytes) → Covers u s es)
latest [] h = (0, λ s le u. tt)
latest (e ∷ es) (h, hs) =
    let (ik, p, same) = split_keyed e h in
    let (r, covers) = latest es hs in
    (
      max ik.sequence r,
      λ s le u. (
        λ version.
            rw (seen_by_ok u s e ik p, sym (is_version_ok u e ik p), version)
              (le→leb ik.sequence s (omega arith)),
        covers s (omega arith) u,
      ),
    )

-- With the suffixes cut off, the first entry under a user key is the first that a reader sees.
find-stripped :
    (u : Bytes) (r : ℕ) (es : List Entry)
    → All IsKeyed es
    → Covers u r es
    → find (stripped es) u ≡ value_of (visible u r es)
unfolding find visible value_of
find-stripped u r [] h c = refl
find-stripped u r (e ∷ es) (h, hs) (c, cs) =
    let (ik, p, same) = split_keyed e h in
    let ih = find-stripped u r es hs cs in
    elim (Bool-cases (bytes_eq ik.user_key u)) [
      | inl t ↦
          let found : compare_bytes u (user_of e) ≡ Ordering.eq =
            rw (sym same, bytes_eq_lem ik.user_key u t) (compare_bytes_refl u) in
          ground (arith, found, c (is_version_ok u e ik p ∙ t))
      | inr t ↦
          let other : compare_bytes u (user_of e) ≢ Ordering.eq = λ eq. cc (
            t,
            ap (λ (x : Bytes). bytes_eq x u) (same ∙ sym (eq_of_compare_bytes u (user_of e) eq)),
            bytes_eq_refl u,
          ) in
          ground (arith, ih, other, seen_by_ok u r e ik p, t)
    ]

pub compacted-All :
    (strat : CompactionStrategy) (s : strat.State) (P : Entry → Type 0) (merged : List Entry)
    → All P merged
    → All P (compacted strat s merged)
compacted-All strat s P merged h =
    rw (compacted-emit strat s merged) (emit-All strat P merged s _ _ h)

-- For sources in order, where no two versions of a user key have the same sequence number, the
-- bottommost compaction and the naive one do not panic, and the naive one returns just the output
-- of the other, with the suffixes of its keys cut off.
pub naive_compact-merged_output :
    (sources : List ArenaSource) (ess : List (List KeyValue))
    → Compactable sources ess
    → ((u : Bytes) → IsVersioned u (all_entries ess))
    → (out : List Entry) × (merged_output bottommost tt sources ≡ some out)
      × (naive_compact ess ≡ some (stripped out))
naive_compact-merged_output sources ess c versioned =
    let (merged, e, p, m) = merged_output-compacted bottommost tt sources ess c in
    let all_keyed = All-all_entries IsKeyed ess c.keyed in
    let keyed = All-perm IsKeyed p all_keyed in
    let out = compacted bottommost tt merged in
    let (r, covers) = latest (all_entries ess) all_keyed in
    let (naive, e', asc, found) = naive_compact-find ess c.keyed in
    let agree : (u : Bytes) → find naive u ≡ find (stripped out) u = λ u.
      let covered = covers r (omega arith) u in
      let seen = All-perm (λ x. is_version u x ≡ true → seen_by u r x ≡ true) p covered in
      found u r covered
      ∙ ap (λ o. value_of (live o)) (sym (newest-perm u r p (versioned u)))
      ∙ ap value_of (sym (newest-bottommost u merged m r seen))
      ∙ ap value_of (sym (visible-newest u r out (compacted-IsMerged bottommost tt merged m)))
      ∙ sym (
          find-stripped u r out (compacted-All bottommost tt IsKeyed merged keyed) (
            compacted-All bottommost tt (λ x. is_version u x ≡ true → seen_by u r x ≡ true) merged
              seen)) in
    (
      out,
      e,
      e'
          ∙ ap some (
              Ascending-unique naive (stripped out) asc (compacted-Ascending merged keyed m) agree),
    )
