-- ===== src/Examples/Metaindex.antt =====
-- A metaindex block of two handles, run and by the theorem.
use compactor.Prelude.{◌≡◌, refl, Bytes, List, [], ◌∷◌, some, arith}
use compactor.Format.Error.{ok}
use compactor.Format.Block.{ParsedBlock, parse_block}
use compactor.Format.BlockBuilder.{new, add, put_entry, shared_prefix_len, finish, put_restarts}
use compactor.Format.BlockBuilder.Encoding.{add_all}
use compactor.Format.Fixed.{le_bytes}
use compactor.Format.Varint.{put_varint32, put_varint64, put_varint64_loop}
use compactor.Format.Metaindex.{MetaEntry, meta_entry, build_metaindex_block, find_meta_handle}
use compactor.Format.Metaindex.RoundTrip.{find_meta_handle-build_metaindex_block}
use compactor.Format.Sorted.{insert_by_name, sort_by_name, first_under}
use compactor.Merge.Cmp.{compare_bytes}

-- Two names out of order.
abbrev two : List MetaEntry
two =
    (b'p' ∷ [], record { offset = 300; size = 40 })
    ∷ (b'i' ∷ [], record { offset = 200; size = 90 })
    ∷ []

build_metaindex_block_run :
    build_metaindex_block two
    ≡ some (
        0 ∷ 1 ∷ 3 ∷ b'i' ∷ 200 ∷ 1 ∷ 90 ∷ 0 ∷ 1 ∷ 3 ∷ b'p' ∷ 172 ∷ 2 ∷ 40 ∷ 0 ∷ 0 ∷ 0 ∷ 0 ∷ 7 ∷ 0
        ∷ 0 ∷ 0 ∷ 2 ∷ 0 ∷ 0 ∷ 0 ∷ [])
unfolding build_metaindex_block sort_by_name insert_by_name meta_entry compare_bytes new add_all add
    put_entry shared_prefix_len finish put_restarts le_bytes put_varint32 put_varint64
    put_varint64_loop
build_metaindex_block_run = refl

find_meta_handle-build_metaindex_block_example :
    (bytes : Bytes) × (block : ParsedBlock) × (build_metaindex_block two ≡ some bytes)
    × (parse_block bytes ≡ ok block)
    × ((name : Bytes) → find_meta_handle block name ≡ ok (first_under two name))
find_meta_handle-build_metaindex_block_example =
    find_meta_handle-build_metaindex_block two (omega arith) (omega arith)
