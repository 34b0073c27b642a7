-- ===== src/Oracle/Lookup.antt =====
-- What the naive compaction finds under a user key, against what a reader sees of the sources.
use compactor.Prelude.{
  ℕ, ◌≤◌, true, false, Bytes, List, [], ◌∷◌, ◌++◌, Option, none, some, ◌>>=◌, length, All,
  if◌then◌else◌, ◌≡◌, refl, sym, ap, ◌∙◌, subst, arith, Bool-cases, Option-cases, inl, inr, le→ltb,
}
use compactor.Format.Error.{ok, err}
use compactor.Format.InternalKey.{InternalKey, split, from_byte}
use compactor.Merge.Source.{KeyValue}
use compactor.Merge.LoserTree.Sorted.{All-all_entries}
use compactor.Merge.Streams.{all_entries}
use compactor.Compaction.Strategy.{is_tombstone}
use compactor.Compaction.Loop.{Entry, bytes_eq}
use compactor.Compaction.Readers.{
  Covers, live, live_ok, live-none, is_version, seen_by, is_version_ok, bytes_eq_lem, bytes_eq_refl,
}
use compactor.Compaction.Readers.Newest.{OnSome, newest-All, newest, newer, sequence_of}
use compactor.Compaction.Whole.Readers.{seen_version}
use compactor.Compaction.Whole.Sources.{IsKeyed}
use compactor.Oracle.{
  Version, ValueType, TreeMap, decode_suffix, type_of, hides_key, get, keep_newest, record_version,
  record_source, record_sources, naive_compact, survivors,
}
use compactor.Oracle.TreeMap.{
  Ascending, Ascending-keep_newest, Ascending-survivors, later, get-keep_newest_self,
  get-keep_newest_other, find, find-survivors, shown,
}

-- The tombstones of the naive compaction are those of the strategies.
hides_key-type_of : (b : ℕ) → hides_key (type_of b) ≡ is_tombstone (from_byte b)
unfolding hides_key type_of is_tombstone from_byte
hides_key-type_of b = ground arith

unfoldable pub version_of : Entry → Version
version_of e = record {
  seq = sequence_of e;
  value = e.1;
  hides = elim (split e.0) [ err _ ↦ false | ok ik ↦ is_tombstone ik.value_type ];
}

-- What is found under a key after entries whose newest version is given.
unfoldable pub after : Option Version → Option Entry → Option Version
after found none = found
after found (some f) = later found (version_of f)

version_of_ok :
    (e : Entry) (ik : InternalKey)
    → split e.0 ≡ ok ik
    → version_of e ≡ record { seq = ik.sequence; value = e.1; hides = is_tombstone ik.value_type }
unfolding version_of sequence_of
version_of_ok e ik p = rw (p, sequence_of) refl

-- The two decoders of a key agree.
decode_suffix-split :
    (k : Bytes)
    → 8 ≤ length k
    → (ik : InternalKey) × (ty : ValueType) × (split k ≡ ok ik)
      × (decode_suffix k ≡ some (ik.user_key, ik.sequence, ty))
      × (hides_key ty ≡ is_tombstone ik.value_type)
unfolding decode_suffix split
decode_suffix-split k h = rw (le→ltb (length k) 8 h) (_, _, refl, refl, hides_key-type_of _)

record_version-split :
    (best : TreeMap) (e : KeyValue)
    → IsKeyed e
    → (ik : InternalKey) × (split e.0 ≡ ok ik)
      × (record_version best e ≡ some (keep_newest best ik.user_key (version_of e)))
unfolding record_version
record_version-split best e h =
    let (ik, ty, p, d, same) = decode_suffix-split e.0 h in
    (ik, p, rw (d, same, version_of_ok e ik p) refl)

get-keep_newest :
    (best : TreeMap) (e : Entry) (ik : InternalKey) (u : Bytes)
    → split e.0 ≡ ok ik
    → get (keep_newest best ik.user_key (version_of e)) u
      ≡ (if is_version u e then later (get best u) (version_of e) else get best u)
get-keep_newest best e ik u p = elim (Bool-cases (bytes_eq ik.user_key u)) [
  | inl t ↦
      let same = bytes_eq_lem ik.user_key u t in
      rw (is_version_ok u e ik p, t, same) (get-keep_newest_self best u (version_of e))
  | inr t ↦
      rw (is_version_ok u e ik p, t)
        (get-keep_newest_other best ik.user_key (version_of e) u
          (λ same. cc (t, subst (λ x. bytes_eq x u ≡ true) same (bytes_eq_refl u))))
]

after-newer :
    (found : Option Version) (e : Entry) (o : Option Entry)
    → after (later found (version_of e)) o ≡ after found (newer e o)
unfolding after later newer version_of
after-newer none e none = refl
after-newer (some v) e none = refl
after-newer none e (some f) = ground arith
after-newer (some v) e (some f) = ground arith

-- After the entries of a source.
record_source-get :
    (source : List KeyValue) (best : TreeMap)
    → All IsKeyed source
    → Ascending best
    → (best' : TreeMap) × (record_source best source ≡ some best')
      × Ascending best'
      × ((u : Bytes) (r : ℕ)
          → Covers u r source
          → get best' u ≡ after (get best u) (newest u r source))
unfolding record_source newest after
record_source-get [] best h asc = (best, refl, asc, λ u r c. refl)
record_source-get (e ∷ source) best (h, hs) asc =
    let (ik, p, recorded) = record_version-split best e h in
    let best' = keep_newest best ik.user_key (version_of e) in
    let (out, eq, asc', found) =
      record_source-get source best' hs
        (Ascending-keep_newest best ik.user_key (version_of e) asc) in
    (
      out,
      rw recorded eq,
      asc',
      λ u r (c, cs). found u r cs ∙ elim (Bool-cases (is_version u e)) [
        | inl t ↦
            rw (get-keep_newest best e ik u p, t, c t)
              (after-newer (get best u) e (newest u r source))
        | inr t ↦ rw (get-keep_newest best e ik u p, t, unseen u r t) refl
      ],
    )
  where
    unseen : (u : Bytes) (r : ℕ) → is_version u e ≡ false → seen_by u r e ≡ false
    unseen u r t = ground (arith, seen_version u r e)

record_source-append :
    (xs ys : List KeyValue) (best : TreeMap)
    → record_source best (xs ++ ys) ≡ (do best' ← record_source best xs; record_source best' ys)
unfolding record_source
record_source-append [] ys best = refl
record_source-append (x ∷ xs) ys best = elim (Option-cases (record_version best x)) [
  | inl e ↦ rw e refl
  | inr (best', e) ↦ rw e (record_source-append xs ys best')
]

record_sources-all_entries :
    (sources : List (List KeyValue)) (best : TreeMap)
    → record_sources best sources ≡ record_source best (all_entries sources)
unfolding record_sources record_source
record_sources-all_entries [] best = refl
record_sources-all_entries (source ∷ sources) best =
    rw (record_source-append source (all_entries sources) best)
      (elim (Option-cases (record_source best source)) [
        | inl e ↦ rw e refl
        | inr (best', e) ↦ rw e (record_sources-all_entries sources best')
      ])

-- The value of an entry, if there is one.
unfoldable pub value_of : Option Entry → Option Bytes
value_of none = none
value_of (some e) = some e.1

shown-after : (e : Entry) → IsKeyed e → shown (some (version_of e)) ≡ value_of (live (some e))
unfolding shown value_of
shown-after e h =
    let (ik, ty, p, d, same) = decode_suffix-split e.0 h in
    rw (version_of_ok e ik p, live_ok e ik p) (ground arith)

shown-newest :
    (Q : Entry → Type 0) (o : Option Entry)
    → OnSome (λ e. IsKeyed e × Q e) o
    → shown (after none o) ≡ value_of (live o)
unfolding after later shown value_of
shown-newest Q none h = ap value_of (sym live-none)
shown-newest Q (some e) (h, q) = shown-after e h

-- The naive compaction of keyed entries does not panic; the user keys of its result ascend, and
-- under each it has the value of the newest version, unless that is a tombstone.
pub naive_compact-find :
    (sources : List (List KeyValue))
    → All (All IsKeyed) sources
    → (out : List KeyValue) × (naive_compact sources ≡ some out)
      × Ascending out
      × ((u : Bytes) (r : ℕ)
          → Covers u r (all_entries sources)
          → find out u ≡ value_of (live (newest u r (all_entries sources))))
unfolding naive_compact get value_of
naive_compact-find sources h =
    let (best, e, asc, found) =
      record_source-get (all_entries sources) [] (All-all_entries IsKeyed sources h) tt in
    (
      survivors best,
      rw (record_sources-all_entries sources [], e) refl,
      Ascending-survivors best asc,
      λ u r c.
          find-survivors best u asc
          ∙ ap shown (found u r c)
          ∙ shown-newest _ (newest u r (all_entries sources))
              (newest-All IsKeyed u r (all_entries sources) (All-all_entries IsKeyed sources h)),
    )
