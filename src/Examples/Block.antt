-- ===== src/Examples/Block.antt =====
-- A small data block, built and walked.
use compactor.Prelude.{
  List, [], ◌∷◌, ◌++◌, ◌+◌, ◌*◌, ◌≤◌, ◌≡◌, ◌≢◌, refl, some, length, Bytes, arith,
}
use compactor.Format.Error.{ok, err, fuel_exhausted, block_too_small}
use compactor.Format.Fixed.{le_bytes, from_le_bytes}
use compactor.Format.Varint.{put_varint64, put_varint32}
use compactor.Format.BlockBuilder.{new, add, put_entry, shared_prefix_len, put_restarts, finish}
use compactor.Format.BlockBuilder.Encoding.{Entry, add_all}
use compactor.Format.Block.{parse_block, u32_at, restarts_from, for_each_entry}
use compactor.Format.Block.RoundTrip.{build, walk, walk-build}
use compactor.Format.Block.Total.{parse_block_room, for_each_entry_terminates}

abbrev entries : List Entry
entries = (b'k' ∷ 1 ∷ 2 ∷ [], 7 ∷ []) ∷ (b'k' ∷ 1 ∷ 3 ∷ [], []) ∷ (b'm' ∷ [], 8 ∷ 9 ∷ []) ∷ []

-- With a restart every two entries, the second shares two bytes, and the third none.
abbrev block_bytes : Bytes
block_bytes =
    0 ∷ 3 ∷ 1 ∷ b'k' ∷ 1 ∷ 2 ∷ 7 ∷ 2 ∷ 1 ∷ 0 ∷ 3 ∷ 0 ∷ 1 ∷ 2 ∷ b'm' ∷ 8 ∷ 9 ∷ 0 ∷ 0 ∷ 0 ∷ 0 ∷ 11 ∷ 0
    ∷ 0 ∷ 0 ∷ 2 ∷ 0 ∷ 0 ∷ 0 ∷ []

-- The callback that collects what it is handed.
abbrev collect : List Entry → Bytes → Bytes → List Entry
collect seen key value = seen ++ (key, value) ∷ []

build_run : build 2 entries ≡ some block_bytes
unfolding build new add_all add put_entry shared_prefix_len put_restarts finish put_varint32
    put_varint64 le_bytes
build_run = refl

parse_run : parse_block block_bytes ≡ ok (record { contents = block_bytes; restarts = 0 ∷ 11 ∷ [] })
unfolding parse_block u32_at restarts_from from_le_bytes
parse_run = refl

parse_short : parse_block (1 ∷ 2 ∷ []) ≡ err block_too_small
unfolding parse_block
parse_short = refl

walk-build_example :
    (bytes : Bytes) × (build 2 entries ≡ some bytes) × (walk collect [] bytes ≡ ok (entries, ok tt))
walk-build_example = walk-build collect [] 2 entries (omega arith) (omega arith) (omega arith)

for_each_entry_terminates_example :
    (for_each_entry collect (record { contents = block_bytes; restarts = [] }) []).1
    ≢ err fuel_exhausted
for_each_entry_terminates_example =
    for_each_entry_terminates collect (record { contents = block_bytes; restarts = [] }) []

parse_block_room_example : (block_bytes ≡ block_bytes) × (4 + 2 * 4 ≤ length block_bytes)
parse_block_room_example = parse_block_room block_bytes _ parse_run
