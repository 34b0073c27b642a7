-- ===== src/Format/BlockBuilder.antt =====
-- crates/compactor/src/format/block_builder.rs, `BlockBuilder`. `none` is a failed assertion.
-- `usize` values are unbounded numbers; the casts to `u32` are written out. The flag `finished`
-- is set by `finish` alone, which consumes the builder, so `add` never finds it set.
pub mod Encoding
pub mod Building
use compactor.Prelude.{
  ℕ, suc, ◌+◌, ◌-◌, ◌*◌, Bool, false, Bytes, List, [], ◌∷◌, ◌++◌, Option, none, some, drop, length,
  leb, ◌==◌, if◌then◌else◌,
}
use compactor.Prelude.Bits.{u32}
use compactor.Format.Fixed.{to_le_bytes32}
use compactor.Format.Varint.{put_varint32}

abbrev pub default_restart_interval : ℕ
default_restart_interval = 16

pub record BlockBuilder : Type 0 where
  pub restart_interval : ℕ
  pub buffer : Bytes
  pub restarts : List ℕ
  pub last_key : Bytes
  pub counter : ℕ
  pub finished : Bool

unfoldable pub new : ℕ → Option BlockBuilder
new restart_interval =
    if leb 1 restart_interval
    then some (record {
      restart_interval = restart_interval;
      buffer = [];
      restarts = 0 ∷ [];
      last_key = [];
      counter = 0;
      finished = false;
    })
    else none

unfoldable pub is_empty : BlockBuilder → Bool
is_empty b = length b.buffer == 0

unfoldable pub current_size_estimate : BlockBuilder → ℕ
current_size_estimate b = length b.buffer + length b.restarts * 4 + 4

-- `a.iter().zip(b).take_while(|(x, y)| x == y).count()`
unfoldable pub shared_prefix_len : Bytes → Bytes → ℕ
shared_prefix_len (x ∷ a) (y ∷ b) = if x == y then suc (shared_prefix_len a b) else 0
shared_prefix_len _ _ = 0

-- The header, the rest of the key and the value.
unfoldable pub put_entry : Bytes → ℕ → Bytes → Bytes → Bytes
put_entry buffer shared key value =
    let non_shared = length key - shared in
    put_varint32 (put_varint32 (put_varint32 buffer (u32 shared)) (u32 non_shared))
      (u32 (length value))
    ++ drop shared key
    ++ value

unfoldable pub add : BlockBuilder → Bytes → Bytes → Option BlockBuilder
add b key value =
    let at_restart = leb b.restart_interval b.counter in
    let shared = if at_restart then 0 else shared_prefix_len b.last_key key in
    if b.finished
    then none
    else if leb b.counter b.restart_interval
    then some (record b {
      restarts = if at_restart then b.restarts ++ u32 (length b.buffer) ∷ [] else b.restarts;
      buffer = put_entry b.buffer shared key value;
      last_key = key;
      counter = (if at_restart then 0 else b.counter) + 1;
    })
    else none

unfoldable pub put_restarts : Bytes → List ℕ → Bytes
put_restarts buffer [] = buffer
put_restarts buffer (r ∷ restarts) = put_restarts (buffer ++ to_le_bytes32 r) restarts

unfoldable pub finish : BlockBuilder → Bytes
finish b = put_restarts b.buffer b.restarts ++ to_le_bytes32 (u32 (length b.restarts))
