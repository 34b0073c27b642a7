-- ===== src/Merge/Source.antt =====
-- crates/compactor/src/merge/source.rs. A source is shared and immutable but for its position, so
-- `Arc` is left out. `none` is a panic: a failed assertion, or a range or an index out of bounds;
-- the sums of two u32 wrap around, as they do where overflow is not checked. `usize` is unbounded.
pub mod Arena
pub mod Shards
pub mod LowerBound
use compactor.Prelude.{
  ℕ, zero, suc, ◌+◌, ◌-◌, Bytes, List, [], ◌∷◌, ◌++◌, Option, none, some, ◌>>=◌, length, get_elem?,
  slice, leb, min, if◌then◌else◌, ◌&&◌, Ordering,
}
use compactor.Prelude.Bits.{u32}
use compactor.Merge.Cmp.{compare_user_keys}

abbrev pub KeyValue : Type 0
KeyValue = Bytes × Bytes

-- The trait: the front element, and the state without it.
pub record MergeSource : Type 1 where
  pub State : Type 0
  pub peek : State → Option (Option KeyValue)
  pub advance : State → State

pub record VecSource : Type 0 where
  pub entries : List KeyValue
  pub pos : ℕ

unfoldable pub new_vec_source : List KeyValue → VecSource
new_vec_source entries = record { entries = entries; pos = 0 }

unfoldable pub peek_vec : VecSource → Option (Option KeyValue)
peek_vec s = some (get_elem? s.entries s.pos)

unfoldable pub advance_vec : VecSource → VecSource
advance_vec s = record s { pos = s.pos + 1 }

abbrev pub vec_source : MergeSource
vec_source = record { State = VecSource; peek = peek_vec; advance = advance_vec }

pub record EntrySpan : Type 0 where
  pub key_off : ℕ
  pub key_len : ℕ
  pub val_off : ℕ
  pub val_len : ℕ

pub record ArenaSource : Type 0 where
  pub arena : Bytes
  pub spans : List EntrySpan
  pub pos : ℕ
  pub end_ : ℕ

-- `bytes[from..to]`
unfoldable pub byte_range : Bytes → ℕ → ℕ → Option Bytes
byte_range bytes from to = if leb from to then slice bytes from (to - from) else none

unfoldable pub key : ArenaSource → EntrySpan → Option Bytes
key s span = byte_range s.arena span.key_off (u32 (span.key_off + span.key_len))

unfoldable pub val : ArenaSource → EntrySpan → Option Bytes
val s span = byte_range s.arena span.val_off (u32 (span.val_off + span.val_len))

unfoldable pub len : ArenaSource → ℕ
len s = s.end_ - min s.pos s.end_

unfoldable pub shard : ArenaSource → ℕ → ℕ → Option ArenaSource
shard s start end_idx =
    if leb start end_idx && leb end_idx (length s.spans)
    then some (record s { pos = start; end_ = end_idx })
    else none

unfoldable pub total_len : ArenaSource → ℕ
total_len s = length s.spans

unfoldable pub key_at : ArenaSource → ℕ → Option Bytes
key_at s i = do span ← get_elem? s.spans i; key s span

-- `partition_point` with the predicate of `lower_bound`: the index of the first span whose key is
-- not below the boundary, which is what the library promises where such spans are behind the
-- others.
unfoldable pub partition_point : ArenaSource → Bytes → List EntrySpan → Option ℕ
partition_point s boundary_key [] = some 0
partition_point s boundary_key (span ∷ spans) = do
  k ← key s span
  order ← compare_user_keys k boundary_key
  rest ← partition_point s boundary_key spans
  some (elim order [ Ordering.lt ↦ suc rest | _ ↦ 0 ])

unfoldable pub lower_bound : ArenaSource → Bytes → Option ℕ
lower_bound s boundary_key = partition_point s boundary_key s.spans

-- The front element behind `self.spans.get(self.pos)?`.
unfoldable pub entry_of : ArenaSource → Option EntrySpan → Option (Option KeyValue)
entry_of s none = some none
entry_of s (some span) = do k ← key s span; v ← val s span; some (some (k, v))

unfoldable pub peek_arena : ArenaSource → Option (Option KeyValue)
peek_arena s = if leb s.end_ s.pos then some none else entry_of s (get_elem? s.spans s.pos)

unfoldable pub advance_arena : ArenaSource → ArenaSource
advance_arena s = record s { pos = s.pos + 1 }

abbrev pub arena_source : MergeSource
arena_source = record { State = ArenaSource; peek = peek_arena; advance = advance_arena }

pub record ArenaSourceBuilder : Type 0 where
  pub arena : Bytes
  pub spans : List EntrySpan

unfoldable pub new_builder : ArenaSourceBuilder
new_builder = record { arena = []; spans = [] }

unfoldable pub push : ArenaSourceBuilder → Bytes → Bytes → ArenaSourceBuilder
push b k v =
    let arena = b.arena ++ k in
    let span : EntrySpan = record {
      key_off = u32 (length b.arena);
      key_len = u32 (length k);
      val_off = u32 (length arena);
      val_len = u32 (length v);
    } in
    record { arena = arena ++ v; spans = b.spans ++ span ∷ [] }

unfoldable pub build : ArenaSourceBuilder → ArenaSource
build b = record { arena = b.arena; spans = b.spans; pos = 0; end_ = length b.spans }
