-- ===== src/Compaction/Files/Tasks.antt =====
-- `compact_sharded` from its sources to the entries that are loaded from its files.
use compactor.Prelude.{
  ℕ, zero, suc, ◌+◌, ◌==◌, ◌^◌, ◌≤◌, ◌<◌, ◌≡◌, refl, ap, ◌∙◌, Bool, true, false, lt→leb, Bytes,
  List, [], ◌∷◌, some, none, map, All, length, get_elem?, subst, arith, inl, inr, Bool-cases,
  if◌then◌else◌,
}
use compactor.Format.Checksum.{Hashes}
use compactor.Format.Error.{ok}
use compactor.Format.SstBuilder.Written.{weight}
use compactor.Format.Trailer.{Decompressors}
use compactor.Merge.LoserTree.Sorted.{All-all_entries}
use compactor.Merge.Source.{KeyValue, ArenaSource}
use compactor.Merge.Source.Arena.{arena_of}
use compactor.Merge.Streams.{all_entries}
use compactor.Compaction.Files.{CompactionOptions, compact, await_tasks, compact_sharded}
use compactor.Compaction.Files.Only.{
  only, only-All, only-IsVersioned, only-all_entries, weight-only, newest-only_here,
  newest-only_elsewhere,
}
use compactor.Compaction.Files.Shards.{home, shard_of-version, in_shard, input-Compactable}
use compactor.Compaction.Files.Outputs.{IsPlain, compact-newest-live}
use compactor.Compaction.Readers.{Covers, live, is_version}
use compactor.Compaction.Readers.Newest.{newest}
use compactor.Compaction.Sharding.{pick_shard_boundaries, shard_inputs}
use compactor.Compaction.Sharding.Boundaries.{IsSource}
use compactor.Compaction.Sharding.Inputs.{IsInput, shard_inputs-pick_shard_boundaries}
use compactor.Compaction.Whole.Arenas.{IsSorted}
use compactor.Compaction.Whole.Readers.{IsVersioned}
use compactor.Compaction.Whole.Sources.{IsKeyed}
use compactor.Sst.Outcome.{done}
use compactor.Sst.Reader.{load_arena_source}
use compactor.Sst.RoundTrip.{reader_of}

each_cons :
    (Q : ℕ → Bytes → Type 0) (file : Bytes) (files : List Bytes)
    → Q 0 file
    → ((j : ℕ) (x : Bytes) → get_elem? files j ≡ some x → Q (suc j) x)
    → (j : ℕ) (x : Bytes) → get_elem? (file ∷ files) j ≡ some x
    → Q j x
each_cons Q file files h hs zero x q = let same : file ≡ x = cc in subst (Q 0) same h
each_cons Q file files h hs (suc j) x q = hs j x q

-- What holds of every task's file, where the tasks end without a panic.
await_tasks-all :
    (hashes : Hashes) (opts : CompactionOptions) (Q : ℕ → Bytes → Type 0)
    (inputs : List (List ArenaSource))
    → ((j : ℕ) (input : List ArenaSource)
        → get_elem? inputs j ≡ some input
        → (file : Bytes) × (compact hashes input opts ≡ some file) × Q j file)
    → (files : List Bytes) × (await_tasks hashes opts inputs ≡ ok files)
      × (length files ≡ length inputs)
      × ((j : ℕ) (file : Bytes) → get_elem? files j ≡ some file → Q j file)
unfolding await_tasks
await_tasks-all hashes opts Q [] h = ([], refl, refl, λ j file q. absurd (cc q))
await_tasks-all hashes opts Q (input ∷ inputs) h =
    let (file, made, holds) = h 0 input refl in
    let (files, e, n, each) =
      await_tasks-all hashes opts (λ j. Q (suc j)) inputs (λ j. h (suc j)) in
    (
      file ∷ files,
      rw (await_tasks, made, e) refl,
      omega (arith, n),
      each_cons Q file files holds each,
    )

length-map : (ess : List (List KeyValue)) → length (map arena_of ess) ≡ length ess
length-map [] = refl
length-map (es ∷ ess) = ap suc (length-map ess)

compact_sharded-await_tasks :
    (hashes : Hashes) (opts : CompactionOptions) (sources : List ArenaSource) (num_shards : ℕ)
    (bs : List Bytes) (inputs : List (List ArenaSource))
    → 1 ≤ length sources
    → 2 ≤ num_shards
    → pick_shard_boundaries sources num_shards ≡ some bs
    → shard_inputs sources bs ≡ some inputs
    → compact_sharded hashes sources num_shards opts ≡ some (await_tasks hashes opts inputs)
unfolding compact_sharded
compact_sharded-await_tasks hashes opts [] num_shards bs inputs h h' e e' = absurd (omega arith)
compact_sharded-await_tasks hashes opts (s ∷ sources) num_shards bs inputs h h' e e' =
    rw (lt→leb num_shards 1 h', e, e') refl

module _ (hashes : Hashes) (d : Decompressors) (opts : CompactionOptions)
    (plain : IsPlain opts.sst_builder) (ess : List (List KeyValue)) (sources : All IsSource ess)
    (sorted : All IsSorted ess) (light : weight (all_entries ess) < 2 ^ 31) (u : Bytes) (r : ℕ)
    (versioned : IsVersioned u (all_entries ess)) (covers : Covers u r (all_entries ess)) where
  -- What is loaded from the file of shard `j`.
  abbrev ShardFile : List Bytes → ℕ → Bytes → Type 0
  ShardFile bs j file =
      (out : List KeyValue) × (load_arena_source hashes d (reader_of file) ≡ done (arena_of out))
      × (newest u r out ≡ (if home bs u == j then live (newest u r (all_entries ess)) else none))

  keyed : (ess : List (List KeyValue)) → All IsSorted ess → All (All IsKeyed) ess
  keyed [] h = tt
  keyed (es ∷ ess) (h, hs) = (h.keyed, keyed ess hs)

  versions_at :
      (bs : List Bytes) (j : ℕ) (b : Bool)
      → (home bs u == j) ≡ b
      → (es : List KeyValue) → All IsKeyed es
      → All (λ e. is_version u e ≡ true → in_shard bs j e ≡ b) es
  versions_at bs j b h [] k = tt
  versions_at bs j b h (e ∷ es) (k, ks) =
      ((λ v. ap (λ (x : ℕ). x == j) (shard_of-version bs u e k v) ∙ h), versions_at bs j b h es ks)

  newest-in_shard :
      (bs : List Bytes) (j : ℕ)
      → live (newest u r (only (in_shard bs j) (all_entries ess)))
        ≡ (if home bs u == j then live (newest u r (all_entries ess)) else none)
  unfolding live
  newest-in_shard bs j =
      let es = all_entries ess in
      let k = All-all_entries IsKeyed ess (keyed ess sorted) in
      elim (Bool-cases (home bs u == j)) [
        | inl t ↦
            rw (t, newest-only_here (in_shard bs j) u r es (versions_at bs j true t es k)) refl
        | inr t ↦
            rw (t, newest-only_elsewhere (in_shard bs j) u r es (versions_at bs j false t es k))
              refl
      ]

  shard_file :
      (bs : List Bytes) (j : ℕ) (input : List ArenaSource)
      → IsInput bs j ess input
      → (file : Bytes) × (compact hashes input opts ≡ some file) × ShardFile bs j file
  shard_file bs j input is =
      let p = in_shard bs j in
      let c = input-Compactable bs j ess input is sorted in
      let all = only-all_entries p ess in
      let (file, out, made, loaded, found) =
        compact-newest-live hashes d opts plain input (map (only p) ess) c
          (omega (arith, ap weight all, weight-only p (all_entries ess))) u r
          (rw all (only-IsVersioned p u (all_entries ess) versioned))
          (rw all (only-All p _ (all_entries ess) covers)) in
      (
        file,
        made,
        (
          out,
          loaded,
          found ∙ ap (λ (es : List KeyValue). live (newest u r es)) all ∙ newest-in_shard bs j,
        ),
      )

  -- A compaction into two shards or more of at least one source, each less than 4 GiB, sorted by
  -- internal key and with user keys that do not descend, their entries together lighter than 2 GiB (of
  -- an entry, twice the key, the value and 100 bytes), to files that take their entries as they are
  -- and whose names are shorter than 2 GiB together: no step panics and no task fails, and there is
  -- one file more than boundaries. Where no two versions of the user key share a sequence number and
  -- the reader is at least as new as all of them, the entries that are loaded from the file of the
  -- key's own shard have for the reader the newest version in the sources, or none where that is a
  -- tombstone, and those of every other file have none.
  pub compact_sharded-newest-live :
      (num_shards : ℕ)
      → 1 ≤ length ess
      → 2 ≤ num_shards
      → (bs : List Bytes) × (files : List Bytes) × (pick_shard_boundaries
            (map arena_of ess)
            num_shards
          ≡ some bs)
        × (compact_sharded hashes (map arena_of ess) num_shards opts ≡ some (ok files))
        × (length files ≡ length bs + 1)
        × ((j : ℕ) (file : Bytes)
            → get_elem? files j ≡ some file
            → (out : List KeyValue) × (load_arena_source hashes d (reader_of file)
                ≡ done (arena_of out))
              × (newest u r out
                  ≡ (if home bs u == j then live (newest u r (all_entries ess)) else none)))
  compact_sharded-newest-live num_shards h h' =
      let (bs, inputs, e, e', n, each) =
        shard_inputs-pick_shard_boundaries ess num_shards h (omega arith) sources in
      let (files, awaited, m, held) =
        await_tasks-all hashes opts (ShardFile bs) inputs
          (λ j input q. shard_file bs j input (each j input q)) in
      let count : length (map arena_of ess) ≡ length ess = length-map ess in
      (
        bs,
        files,
        e,
        compact_sharded-await_tasks hashes opts (map arena_of ess) num_shards bs inputs
              (omega (arith, count)) h' e e'
            ∙ ap some awaited,
        m ∙ n,
        held,
      )
