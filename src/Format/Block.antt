-- ===== src/Format/Block.antt =====
-- crates/compactor/src/format/block.rs, the parsing of a block and the walk over the entries of a
-- data block. The callback of the walk is a function on a state `S`, and what it has done is
-- returned also where the walk ends in an error. `key_scratch`, cleared at the start, is the
-- loop's variable.
pub mod Entries
pub mod Restarts
pub mod RoundTrip
pub mod Holds
pub mod Total
use compactor.Prelude.{
  ℕ, zero, suc, ◌+◌, ◌-◌, ◌*◌, true, false, Bytes, List, [], ◌∷◌, ◌++◌, Option, none, some, take,
  drop, length, ltb, slice, if◌then◌else◌,
}
use compactor.Format.Error.{
  Error, Result, ok, err, ok_or, ◌>>=◌, block_too_small, restarts_out_of_bounds, truncated_shared,
  truncated_unshared, truncated_value_length, shared_exceeds_last_key, truncated_key_delta,
  truncated_value, fuel_exhausted,
}
use compactor.Format.Fixed.{from_le_bytes}
use compactor.Format.Varint.{get_varint32}

pub record ParsedBlock : Type 0 where
  pub contents : Bytes
  pub restarts : List ℕ

-- `contents[off..off + 4]` as a little-endian u32
unfoldable pub u32_at : Bytes → ℕ → ℕ
u32_at contents off = from_le_bytes (take 4 (drop off contents))

-- The `for i in 0..num_restarts`, `n` rounds from offset `off` on.
unfoldable pub restarts_from : Bytes → ℕ → ℕ → List ℕ
restarts_from contents zero off = []
restarts_from contents (suc n) off = u32_at contents off ∷ restarts_from contents n (off + 4)

unfoldable pub parse_block : Bytes → Result ParsedBlock
parse_block contents =
    if ltb (length contents) 4
    then err block_too_small
    else let n = length contents in
      let num_restarts = u32_at contents (n - 4) in
      let restarts_len = num_restarts * 4 in
      if ltb n (4 + restarts_len)
      then err restarts_out_of_bounds
      else ok (record {
        contents = contents;
        restarts = restarts_from contents num_restarts (n - 4 - restarts_len);
      })

-- One round of the `while`: the key, the value, and the position behind them.
unfoldable pub read_entry : Bytes → ℕ → Bytes → Result (Bytes × Bytes × ℕ)
read_entry buf pos key_scratch = do
  (shared, pos₁) ← ok_or (get_varint32 buf pos) truncated_shared
  (unshared, pos₂) ← ok_or (get_varint32 buf pos₁) truncated_unshared
  (value_len, pos₃) ← ok_or (get_varint32 buf pos₂) truncated_value_length
  if ltb (length key_scratch) shared then err shared_exceeds_last_key else do
    key_delta ← ok_or (slice buf pos₃ unshared) truncated_key_delta
    let pos₄ = pos₃ + unshared
    value ← ok_or (slice buf pos₄ value_len) truncated_value
    ok (take shared key_scratch ++ key_delta, value, pos₄ + value_len)

module _ {S : Type 0} (f : S → Bytes → Bytes → S) where
  -- The `while pos < data.len()`, with fuel.
  unfoldable pub entries_loop : ℕ → Bytes → ℕ → Bytes → S → S × Result (Unit {0})
  entries_loop zero buf pos key_scratch s = (s, err fuel_exhausted)
  entries_loop (suc fuel) buf pos key_scratch s = elim (ltb pos (length buf)) [
    | false ↦ (s, ok tt)
    | true ↦ elim (read_entry buf pos key_scratch) [
      | err e ↦ (s, err e)
      | ok (key, value, pos') ↦ entries_loop fuel buf pos' key (f s key value)
    ]
  ]

  -- Each round takes a byte at least.
  unfoldable pub for_each_entry : ParsedBlock → S → S × Result (Unit {0})
  for_each_entry block s =
      let restarts_len = length block.restarts * 4 in
      let entries_end = length block.contents - 4 - restarts_len in
      let buf = take entries_end block.contents in entries_loop (suc (length buf)) buf 0 [] s
