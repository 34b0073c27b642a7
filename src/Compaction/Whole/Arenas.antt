-- ===== src/Compaction/Whole/Arenas.antt =====
-- Sources that `ArenaSourceBuilder` built, and their shards, are sources that a compaction takes.
use compactor.Prelude.{
  ℕ, ◌-◌, ◌^◌, ◌≤◌, ◌<◌, List, [], ◌∷◌, map, some, length, length-append, take, drop, All, ◌≡◌,
  refl, ap, ◌∙◌, subst, arith, get_elem?, le→leb,
}
use compactor.Merge.Source.{KeyValue, ArenaSource, arena_source, shard, len, peek_arena}
use compactor.Merge.Source.Arena.{bytes_of, arena_of, arena_of-spans, length-spans_of}
use compactor.Merge.Source.Shards.{shard-vec_source, peek_vec-new_vec_source, advance_n}
use compactor.Merge.Cmp.Total.{internal_key_order}
use compactor.Merge.LoserTree.Run.{InOrder}
use compactor.Merge.Streams.{Streams, all_entries}
use compactor.Compaction.Whole.{total_entries}
use compactor.Compaction.Whole.Sources.{IsKeyed, Compactable}

-- Entries that a source can be built from for a compaction.
pub record IsSorted (es : List KeyValue) : Type 0 where
  pub small : length (bytes_of es) < 2 ^ 32
  pub keyed : All IsKeyed es
  pub ordered : InOrder internal_key_order es

pub shard-Streams :
    (es : List KeyValue) (start end_idx : ℕ) (s : ArenaSource)
    → length (bytes_of es) < 2 ^ 32
    → start ≤ end_idx
    → end_idx ≤ length es
    → shard (arena_of es) start end_idx ≡ some s
    → Streams arena_source s (take (end_idx - start) (drop start es))
shard-Streams es start end_idx s small h h' p n =
    let part = take (end_idx - start) (drop start es) in
    let (s', p', streams) = shard-vec_source es start end_idx n small h h' in
    let same : s' ≡ s = cc in
    subst (λ x. peek_arena (advance_n arena_source n x) ≡ some (get_elem? part n)) same
      (streams ∙ peek_vec-new_vec_source part n)

take_all : (es : List KeyValue) → take (length es) es ≡ es
take_all [] = refl
take_all (e ∷ es) = ap (◌∷◌ e) (take_all es)

drop_none : (es : List KeyValue) → take (length es - 0) es ≡ es
drop_none es = let e : length es - 0 ≡ length es = omega arith in rw e (take_all es)

shard-whole :
    (es : List KeyValue)
    → length (bytes_of es) < 2 ^ 32
    → shard (arena_of es) 0 (length es) ≡ some (arena_of es)
unfolding shard
shard-whole es small =
    rw
      (
        arena_of-spans es small,
        length-spans_of 0 es,
        le→leb 0 (length es) (omega arith),
        le→leb (length es) (length es) (omega arith),
      )
      refl

pub arena_of-Streams :
    (es : List KeyValue) → length (bytes_of es) < 2 ^ 32 → Streams arena_source (arena_of es) es
arena_of-Streams es small = subst (Streams arena_source (arena_of es)) (drop_none es) (
    shard-Streams es 0 (length es) (arena_of es) small (omega arith) (omega arith)
      (shard-whole es small))

len-arena_of : (es : List KeyValue) → length (bytes_of es) < 2 ^ 32 → len (arena_of es) ≡ length es
unfolding len
len-arena_of es small = rw (arena_of-spans es small) (omega (arith, length-spans_of 0 es))

-- Sources from sorted entries can be compacted.
pub arena_of-Compactable :
    (ess : List (List KeyValue)) → All IsSorted ess → Compactable (map arena_of ess) ess
unfolding total_entries
arena_of-Compactable [] h = record { streams = tt; keyed = tt; ordered = tt; counted = omega arith }
arena_of-Compactable (es ∷ ess) (h, hs) =
    let c = arena_of-Compactable ess hs in
    record {
      streams = (arena_of-Streams es h.small, c.streams);
      keyed = (h.keyed, c.keyed);
      ordered = (h.ordered, c.ordered);
      counted =
          omega (arith, c.counted, len-arena_of es h.small, length-append es (all_entries ess));
    }
