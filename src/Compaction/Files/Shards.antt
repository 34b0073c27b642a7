-- ===== src/Compaction/Files/Shards.antt =====
-- The inputs of the shards as sources of a compaction, and the shard of a user key.
use compactor.Prelude.{
  ℕ, suc, ◌-◌, ◌==◌, ◌≡◌, refl, sym, ap, ◌∙◌, Bool, true, Bytes, List, [], ◌∷◌, map, All, length,
  length-append, length-take, drop, subst, arith, Ordering,
}
use compactor.Merge.Cmp.{compare_bytes}
use compactor.Merge.Source.{KeyValue, ArenaSource, arena_source, len}
use compactor.Merge.Source.Arena.{arena_of, arena_of-spans, length-spans_of}
use compactor.Merge.Source.LowerBound.{below, user}
use compactor.Merge.Streams.{Streams, all_entries}
use compactor.Compaction.Files.Only.{only, only-All, only-InOrder, window-only}
use compactor.Compaction.Readers.{is_version, is_version_ok, bytes_eq_lem}
use compactor.Compaction.Sharding.Inputs.{IsInput}
use compactor.Compaction.Sharding.Windows.{shard_of}
use compactor.Compaction.Whole.{total_entries}
use compactor.Compaction.Whole.Arenas.{IsSorted, shard-Streams}
use compactor.Compaction.Whole.Sources.{IsKeyed, Compactable}
use compactor.Oracle.Distinct.{split_keyed}

-- The shard of a user key.
unfoldable pub home : List Bytes → Bytes → ℕ
home [] u = 0
home (b ∷ bs) u = elim (compare_bytes u (user b)) [ Ordering.lt ↦ 0 | _ ↦ suc (home bs u) ]

shard_of-home : (bs : List Bytes) (k : Bytes) → shard_of bs k ≡ home bs (user k)
unfolding shard_of home below
shard_of-home [] k = refl
shard_of-home (b ∷ bs) k = ground (arith, shard_of-home bs k)

pub shard_of-version :
    (bs : List Bytes) (u : Bytes) (e : KeyValue)
    → IsKeyed e
    → is_version u e ≡ true
    → shard_of bs e.0 ≡ home bs u
shard_of-version bs u e h v =
    let (ik, p, same) = split_keyed e h in
    let mine : ik.user_key ≡ u = bytes_eq_lem ik.user_key u (sym (is_version_ok u e ik p) ∙ v) in
    shard_of-home bs e.0 ∙ ap (home bs) (sym same ∙ mine)

module _ (bs : List Bytes) (j : ℕ) where
  abbrev pub in_shard : KeyValue → Bool
  in_shard e = shard_of bs e.0 == j

  pub input-Compactable :
      (ess : List (List KeyValue)) (input : List ArenaSource)
      → IsInput bs j ess input
      → All IsSorted ess
      → Compactable input (map (only in_shard) ess)
  unfolding total_entries len
  input-Compactable [] input is h =
      subst (λ x. Compactable x []) (sym is)
        (record { streams = tt; keyed = tt; ordered = tt; counted = omega arith })
  input-Compactable (es ∷ ess) input (s, rest, same, (a, b, part), within, is) (h, hs) =
      let c = input-Compactable ess rest is hs in
      let n : length (arena_of es).spans ≡ length es =
        ap (λ (x : ArenaSource). length x.spans) (arena_of-spans es h.small)
        ∙ length-spans_of 0 es in
      let window = window-only in_shard es s.pos s.end_ within a (omega (arith, n)) in
      let here : Streams arena_source s (only in_shard es) =
        subst (Streams arena_source s) window
          (shard-Streams es s.pos s.end_ s h.small a (omega (arith, n)) part) in
      let short = length-take (s.end_ - s.pos) (drop s.pos es) in
      subst (λ x. Compactable x (map (only in_shard) (es ∷ ess))) (sym same)
        (record {
          streams = (here, c.streams);
          keyed = (only-All in_shard IsKeyed es h.keyed, c.keyed);
          ordered = (only-InOrder in_shard es h.ordered, c.ordered);
          counted = omega (
            arith,
            c.counted,
            ap length window,
            short,
            length-append (only in_shard es) (all_entries (map (only in_shard) ess)),
          );
        })
