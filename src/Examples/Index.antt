-- ===== src/Examples/Index.antt =====
-- An index block of three handles, run and by the theorem.
use compactor.Prelude.{ℕ, ◌≡◌, refl, Bytes, List, [], ◌∷◌, ◌++◌, some, arith}
use compactor.Format.Error.{ok}
use compactor.Format.Fixed.{le_bytes}
use compactor.Format.Varint.{put_varint32, put_varint64, put_varint64_loop}
use compactor.Format.Varint.Encoding.{varint, groups}
use compactor.Format.BlockBuilder.{shared_prefix_len, put_restarts}
use compactor.Format.Checksum.{BlockHandle}
use compactor.Format.IndexBlock.{
  new_index_builder, add_index_entry, put_index_key, put_handle, put_varsigned64, finish_index,
}
use compactor.Format.IndexBlock.ZigZag.{zigzag}
use compactor.Format.IndexBlock.Encoding.{IndexEntry, index_encoded}
use compactor.Format.IndexBlock.Building.{add_index_all}
use compactor.Format.IndexBlock.Walk.{fold_index}
use compactor.Format.IndexBlock.RoundTrip.{build_index, walk_index, walk_index-build_index}

abbrev handle_at : ℕ → ℕ → BlockHandle
handle_at offset size = record { offset = offset; size = size }

-- The second handle is a difference, and the third starts an interval.
abbrev three : List IndexEntry
three =
    (b'a' ∷ b'b' ∷ [], handle_at 0 200)
    ∷ (b'a' ∷ b'c' ∷ [], handle_at 205 190)
    ∷ (b'a' ∷ b'd' ∷ [], handle_at 400 7)
    ∷ []

abbrev gathered : List IndexEntry → Bytes → BlockHandle → List IndexEntry
gathered seen key h = seen ++ (key, h) ∷ []

-- The difference of -10 is 19 as a zigzag number.
build_index_run :
    build_index 2 three
    ≡ some (
        0 ∷ 2 ∷ b'a' ∷ b'b' ∷ 0 ∷ 200 ∷ 1 ∷ 1 ∷ 1 ∷ b'c' ∷ 19 ∷ 0 ∷ 2 ∷ b'a' ∷ b'd' ∷ 144 ∷ 3 ∷ 7
        ∷ 0 ∷ 0 ∷ 0 ∷ 0 ∷ 11 ∷ 0 ∷ 0 ∷ 0 ∷ 2 ∷ 0 ∷ 0 ∷ 0 ∷ [])
unfolding build_index new_index_builder add_index_all add_index_entry put_index_key put_handle
    put_varsigned64 put_varint32 put_varint64 put_varint64_loop finish_index put_restarts
    shared_prefix_len le_bytes
build_index_run = refl

walk_index-build_index_example :
    (bytes : Bytes) × (build_index 2 three ≡ some bytes)
    × (walk_index gathered [] bytes ≡ ok (fold_index gathered [] three, ok tt))
unfolding index_encoded varint groups shared_prefix_len zigzag
walk_index-build_index_example =
    walk_index-build_index gathered [] 2 three (omega arith) (omega arith) (omega arith)
      (omega arith) (omega arith)
