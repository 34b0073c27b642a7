-- ===== src/Format/Block/Total.antt =====
-- Any bytes at all: the walk ends, and stays within what `parse_block` accepted.
use compactor.Prelude.{
  ℕ, zero, suc, ◌+◌, ◌-◌, ◌*◌, ◌≤◌, ◌<◌, ◌≡◌, ◌≢◌, refl, ap, Bytes, length, ltb, take, arith,
  Bool-cases, inl, inr, Option-cases, slice, [],
}
use compactor.Format.Error.{ok, err, fuel_exhausted, Result-cases}
use compactor.Format.Varint.{get_varint32}
use compactor.Format.Varint.Bounds.{get_varint32_moves}
use compactor.Format.Block.{
  ParsedBlock, parse_block, for_each_entry, entries_loop, read_entry, restarts_from, u32_at,
}

length-restarts_from :
    (n : ℕ) (contents : Bytes) (off : ℕ) → length (restarts_from contents n off) ≡ n
unfolding restarts_from
length-restarts_from zero contents off = refl
length-restarts_from (suc n) contents off = ap suc (length-restarts_from n contents (off + 4))

-- A block that `parse_block` accepts has room for its restart array and count: the subtraction
-- with which the walks find the end of the entries does not underflow.
pub parse_block_room :
    (contents : Bytes) (block : ParsedBlock)
    → parse_block contents ≡ ok block
    → (block.contents ≡ contents) × (4 + length block.restarts * 4 ≤ length block.contents)
unfolding parse_block
parse_block_room contents block e =
    let count = u32_at contents (length contents - 4) in
    ground (arith, length-restarts_from count contents (length contents - 4 - count * 4))

read_entry_moves :
    (buf : Bytes) (pos : ℕ) (last key value : Bytes) (pos' : ℕ)
    → read_entry buf pos last ≡ ok (key, value, pos')
    → (pos < pos') × (pos' ≤ length buf)
unfolding read_entry slice
read_entry_moves buf pos last key value pos' e = elim (Option-cases (get_varint32 buf pos)) [
  | inl gone ↦ cc (rw gone at e)
  | inr ((a, p₁), e₁) ↦
      let e = rw e₁ at e in
      let m₁ = get_varint32_moves buf pos a p₁ e₁ in
      elim (Option-cases (get_varint32 buf p₁)) [
        | inl gone ↦ cc (rw gone at e)
        | inr ((b, p₂), e₂) ↦
            let e = rw e₂ at e in
            let m₂ = get_varint32_moves buf p₁ b p₂ e₂ in
            elim (Option-cases (get_varint32 buf p₂)) [
              | inl gone ↦ cc (rw gone at e)
              | inr ((c, p₃), e₃) ↦
                  let e = rw e₃ at e in let m₃ = get_varint32_moves buf p₂ c p₃ e₃ in ground arith
            ]
      ]
]

read_entry_fuel :
    (buf : Bytes) (pos : ℕ) (last : Bytes) → read_entry buf pos last ≢ err fuel_exhausted
unfolding read_entry
read_entry_fuel buf pos last e = ground arith

module _ {S : Type 0} (f : S → Bytes → Bytes → S) (buf : Bytes) where
  entries_loop_fuel :
      (fuel pos : ℕ) (last : Bytes) (s : S)
      → pos ≤ length buf
      → length buf < fuel + pos
      → (entries_loop f fuel buf pos last s).1 ≢ err fuel_exhausted
  unfolding entries_loop
  entries_loop_fuel zero pos last s h m = absurd (omega arith)
  entries_loop_fuel (suc fuel) pos last s h m = elim (Bool-cases (ltb pos (length buf))) [
    | inr t ↦ rw (t, entries_loop) (λ e. cc e)
    | inl t ↦ elim (Result-cases (read_entry buf pos last)) [
      | inr (x, p) ↦ rw (t, p, entries_loop) (λ e. read_entry_fuel buf pos last (cc))
      | inl ((key, value, pos'), p) ↦
          let (forth, within) = read_entry_moves buf pos last key value pos' p in
          rw (t, p, entries_loop)
            (entries_loop_fuel fuel pos' key (f s key value) within (omega arith))
    ]
  ]

-- The walk over the entries of any block ends, with an error of the source or without: the fuel of
-- the loop is never used up.
pub for_each_entry_terminates :
    {S : Type 0} (f : S → Bytes → Bytes → S) (block : ParsedBlock) (s : S)
    → (for_each_entry f block s).1 ≢ err fuel_exhausted
unfolding for_each_entry
for_each_entry_terminates f block s =
    entries_loop_fuel f _
      (suc (length (take (length block.contents - 4 - length block.restarts * 4) block.contents))) 0
      [] s (omega arith) (omega arith)
