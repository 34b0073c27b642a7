-- ===== src/Format/IndexBlock.antt =====
-- The index block: `IndexBlockBuilder` and `put_varsigned64` of
-- crates/compactor/src/format/block_builder.rs, `for_each_index_entry` and `get_varsigned64` of
-- format/block.rs. An i64 is its bits as a u64, and its arithmetic wraps around. `none` is a panic.
pub mod ZigZag
pub mod Encoding
pub mod Building
pub mod Reading
pub mod Walk
pub mod RoundTrip
pub mod Holds
use compactor.Prelude.{
  ℕ, zero, suc, ◌+◌, ◌-◌, ◌*◌, ◌/◌, ◌^◌, Bool, true, false, ◌||◌, Bytes, List, [], ◌∷◌, ◌++◌,
  Option, none, some, take, drop, length, leb, ltb, ◌==◌, if◌then◌else◌, bit_and, bit_xor, slice,
}
use compactor.Prelude
use compactor.Prelude.Bits.{u32, u64}
use compactor.Format.Error.{
  Result, ok, err, ok_or, ◌>>=◌, truncated_index_shared, truncated_index_unshared,
  index_shared_exceeds_last_key, truncated_index_key_delta, truncated_index_offset,
  truncated_index_size, no_previous_handle, truncated_size_delta, fuel_exhausted,
}
use compactor.Format.Fixed.{to_le_bytes32}
use compactor.Format.Varint.{get_varint32, get_varint64, put_varint32, put_varint64}
use compactor.Format.BlockBuilder.{shared_prefix_len, put_restarts}
use compactor.Format.Block.{ParsedBlock}
use compactor.Format.Checksum.{BlockHandle}
use compactor.Format.Trailer.{block_trailer_size}

-- `v >> 63` of an i64
abbrev sign_bits : ℕ → ℕ
sign_bits v = if leb (2 ^ 63) v then 0xffff_ffff_ffff_ffff else 0

unfoldable pub put_varsigned64 : Bytes → ℕ → Bytes
put_varsigned64 out v = put_varint64 out (bit_xor (u64 (v * 2 ^ 1)) (sign_bits v))

unfoldable pub get_varsigned64 : Bytes → ℕ → Option (ℕ × ℕ)
get_varsigned64 buf pos =
    Prelude.◌>>=◌ (get_varint64 buf pos)
      (λ (u, pos'). some (bit_xor (u / 2 ^ 1) (u64 (2 ^ 64 - bit_and u 1)), pos'))

pub record IndexBlockBuilder : Type 0 where
  pub restart_interval : ℕ
  pub buffer : Bytes
  pub restarts : List ℕ
  pub last_key : Bytes
  pub last_handle : Option BlockHandle
  pub counter : ℕ

unfoldable pub new_index_builder : ℕ → Option IndexBlockBuilder
new_index_builder restart_interval =
    if leb 1 restart_interval
    then some (record {
      restart_interval = restart_interval;
      buffer = [];
      restarts = 0 ∷ [];
      last_key = [];
      last_handle = none;
      counter = 0;
    })
    else none

unfoldable pub index_is_empty : IndexBlockBuilder → Bool
index_is_empty b = length b.buffer == 0

unfoldable pub index_size_estimate : IndexBlockBuilder → ℕ
index_size_estimate b = length b.buffer + length b.restarts * 4 + 4

-- The header and the rest of the key.
unfoldable pub put_index_key : Bytes → ℕ → Bytes → Bytes
put_index_key buffer shared key =
    put_varint32 (put_varint32 buffer (u32 shared)) (u32 (length key - shared)) ++ drop shared key

-- `handle.size as i64 - prev.size as i64`
abbrev pub size_delta : BlockHandle → BlockHandle → ℕ
size_delta handle prev = u64 (handle.size + 2 ^ 64 - prev.size)

-- The handle, in full or as a difference to the previous one.
unfoldable pub put_handle : Bytes → Bool → Option BlockHandle → BlockHandle → Option Bytes
put_handle buffer true last_handle handle =
    some (put_varint64 (put_varint64 buffer handle.offset) handle.size)
put_handle buffer false none handle = none
put_handle buffer false (some prev) handle = some (put_varsigned64 buffer (size_delta handle prev))

unfoldable pub add_index_entry : IndexBlockBuilder → Bytes → BlockHandle → Option IndexBlockBuilder
add_index_entry b key handle =
    let at_restart = leb b.restart_interval b.counter in
    let shared = if at_restart then 0 else shared_prefix_len b.last_key key in
    Prelude.◌>>=◌
      (put_handle (put_index_key b.buffer shared key) (at_restart || shared == 0) b.last_handle
        handle)
      (λ buffer. some (record b {
        restarts = if at_restart then b.restarts ++ u32 (length b.buffer) ∷ [] else b.restarts;
        buffer = buffer;
        last_key = key;
        last_handle = some handle;
        counter = (if at_restart then 0 else b.counter) + 1;
      }))

unfoldable pub finish_index : IndexBlockBuilder → Bytes
finish_index b = put_restarts b.buffer b.restarts ++ to_le_bytes32 (u32 (length b.restarts))

-- `binary_search` in the sorted offsets succeeds just on their elements.
unfoldable pub is_offset : List ℕ → ℕ → Bool
is_offset [] pos = false
is_offset (r ∷ restarts) pos = r == pos || is_offset restarts pos

-- The handle that a round reads, and the position behind it.
unfoldable pub read_handle : Bytes → ℕ → Bool → Option BlockHandle → Result (BlockHandle × ℕ)
read_handle buf pos true last_handle = do
  (offset, pos₁) ← ok_or (get_varint64 buf pos) truncated_index_offset
  (size, pos₂) ← ok_or (get_varint64 buf pos₁) truncated_index_size
  ok (record { offset = offset; size = size }, pos₂)
read_handle buf pos false last_handle = do
  prev ← ok_or last_handle no_previous_handle
  (delta, pos₁) ← ok_or (get_varsigned64 buf pos) truncated_size_delta
  ok (
    record {
      offset = u64 (prev.offset + prev.size + block_trailer_size);
      size = u64 (prev.size + delta);
    },
    pos₁,
  )

-- One round of the `while`: the key, its handle, and the position behind them.
unfoldable pub read_index_entry :
    Bytes → List ℕ → ℕ → Bytes → Option BlockHandle → Result (Bytes × BlockHandle × ℕ)
read_index_entry buf restart_offsets pos key_scratch last_handle = do
  let at_restart = is_offset restart_offsets pos
  (shared, pos₁) ← ok_or (get_varint32 buf pos) truncated_index_shared
  (unshared, pos₂) ← ok_or (get_varint32 buf pos₁) truncated_index_unshared
  if ltb (length key_scratch) shared then err index_shared_exceeds_last_key else do
    key_delta ← ok_or (slice buf pos₂ unshared) truncated_index_key_delta
    (handle, pos₃) ← read_handle buf (pos₂ + unshared) (at_restart || shared == 0) last_handle
    ok (take shared key_scratch ++ key_delta, handle, pos₃)

module _ {S : Type 0} (f : S → Bytes → BlockHandle → S) where
  -- The `while pos < buf.len()`, with fuel.
  unfoldable pub index_loop :
      ℕ → Bytes → List ℕ → ℕ → Bytes → Option BlockHandle → S → S × Result (Unit {0})
  index_loop zero buf restart_offsets pos key_scratch last_handle s = (s, err fuel_exhausted)
  index_loop (suc fuel) buf restart_offsets pos key_scratch last_handle s =
      elim (ltb pos (length buf)) [
        | false ↦ (s, ok tt)
        | true ↦ elim (read_index_entry buf restart_offsets pos key_scratch last_handle) [
          | err e ↦ (s, err e)
          | ok (key, handle, pos') ↦
              index_loop fuel buf restart_offsets pos' key (some handle) (f s key handle)
        ]
      ]

  -- Each round takes a byte at least.
  unfoldable pub for_each_index_entry : ParsedBlock → S → S × Result (Unit {0})
  for_each_index_entry block s =
      let restarts_len = length block.restarts * 4 in
      let entries_end = length block.contents - 4 - restarts_len in
      let buf = take entries_end block.contents in
      index_loop (suc (length buf)) buf block.restarts 0 [] none s
