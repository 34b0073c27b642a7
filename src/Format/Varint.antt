-- ===== src/Format/Varint.antt =====
-- crates/compactor/src/format/varint.rs. A buffer is a list of bytes, and the `pos: &mut usize`
-- of a reader is an argument and a part of the result; a reader that answers `None` is not asked
-- for its position by any caller. An `out: &mut Vec<u8>` is an argument and the result.
pub mod Encoding
pub mod Bounds
pub mod RoundTrip
use compactor.Prelude.{
  ℕ, zero, suc, ◌+◌, ◌*◌, ◌/◌, ◌^◌, bit_and, bit_or, Option, none, some, ◌++◌, [], ◌∷◌, Bytes,
  ◌>>=◌, drop, ltb, leb, ◌==◌, if◌then◌else◌,
}
use compactor.Prelude.Bits.{u8, u32, u64}

-- The `loop` of `get_varint64`, over the bytes from read position `p` on.
unfoldable pub get_varint64_loop : Bytes → ℕ → ℕ → ℕ → Option (ℕ × ℕ)
get_varint64_loop [] p shift result = none
get_varint64_loop (byte ∷ bytes) p shift result =
    let result' = bit_or result (u64 (bit_and byte 0x7f * 2 ^ shift)) in
    let again = get_varint64_loop bytes (p + 1) (shift + 7) result' in
    if bit_and byte 0x80 == 0
    then some (result', p + 1)
    else if leb 64 (shift + 7)
    then none
    else again

-- The value and the position behind it.
unfoldable pub get_varint64 : Bytes → ℕ → Option (ℕ × ℕ)
unfolding get_varint64_loop
get_varint64 buf pos = get_varint64_loop (drop pos buf) pos 0 0

unfoldable pub get_varint32 : Bytes → ℕ → Option (ℕ × ℕ)
get_varint32 buf pos = do
  (v, pos') ← get_varint64 buf pos
  if ltb 0xffff_ffff v then none else some (u32 v, pos')

-- The rounds that the writer of a `u64` can take, one for each group of seven bits.
abbrev pub max_rounds : ℕ
max_rounds = 10

-- The `loop` of `put_varint64`, with fuel.
unfoldable pub put_varint64_loop : ℕ → Bytes → ℕ → Bytes
put_varint64_loop zero out v = out
put_varint64_loop (suc fuel) out v =
    let rest = put_varint64_loop fuel (out ++ bit_or (bit_and (u8 v) 0x7f) 0x80 ∷ []) (v / 2 ^ 7) in
    if ltb v 0x80 then out ++ u8 v ∷ [] else rest

unfoldable pub put_varint64 : Bytes → ℕ → Bytes
unfolding put_varint64_loop
put_varint64 out v = put_varint64_loop max_rounds out v

unfoldable pub put_varint32 : Bytes → ℕ → Bytes
put_varint32 out v = put_varint64 out v
