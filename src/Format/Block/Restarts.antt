-- ===== src/Format/Block/Restarts.antt =====
-- The restart array behind the entries, parsed back.
use compactor.Prelude.{
  ℕ, ◌+◌, ◌-◌, ◌*◌, ◌^◌, ◌<◌, ◌≡◌, refl, sym, ap, ap₂, ◌∙◌, Bytes, List, [], ◌∷◌, ◌++◌, take, drop,
  length, ltb, le→ltb, false, All, arith, append_assoc, append-nil, length-append,
  take-append_length, drop-append_length, drop-advance,
}
use compactor.Prelude.Bits.{u32}
use compactor.Format.Error.{ok}
use compactor.Format.Fixed.{to_le_bytes32, from_le_bytes, from_le_bytes-le_bytes, length-le_bytes}
use compactor.Format.BlockBuilder.{BlockBuilder, put_restarts, finish}
use compactor.Format.Block.{u32_at, restarts_from, parse_block}

-- The restart array as bytes.
pub restart_bytes : List ℕ → Bytes
restart_bytes [] = []
restart_bytes (r ∷ rs) = to_le_bytes32 r ++ restart_bytes rs

put_restarts-restart_bytes :
    (rs : List ℕ) (buffer : Bytes) → put_restarts buffer rs ≡ buffer ++ restart_bytes rs
unfolding put_restarts restart_bytes
put_restarts-restart_bytes [] buffer = sym (append-nil buffer)
put_restarts-restart_bytes (r ∷ rs) buffer =
    put_restarts-restart_bytes rs (buffer ++ to_le_bytes32 r)
    ∙ append_assoc buffer (to_le_bytes32 r) (restart_bytes rs)

length-restart_bytes : (rs : List ℕ) → length (restart_bytes rs) ≡ length rs * 4
unfolding restart_bytes
length-restart_bytes [] = omega arith
length-restart_bytes (r ∷ rs) = omega (
  arith,
  length-append (to_le_bytes32 r) (restart_bytes rs),
  length-le_bytes 4 r,
  length-restart_bytes rs,
)

u32_at-drop :
    (buf : Bytes) (off r : ℕ) (rest : Bytes)
    → r < 2 ^ 32
    → drop off buf ≡ to_le_bytes32 r ++ rest
    → u32_at buf off ≡ r
unfolding u32_at
u32_at-drop buf off r rest h e =
    ap (λ (b : Bytes). from_le_bytes (take 4 b)) e
    ∙ ap from_le_bytes (rw (length-le_bytes 4 r) at (take-append_length (to_le_bytes32 r) rest))
    ∙ from_le_bytes-le_bytes 4 r h

restarts_from-restart_bytes :
    (rs : List ℕ) (buf : Bytes) (off : ℕ) (rest : Bytes)
    → All (λ r. r < 2 ^ 32) rs
    → drop off buf ≡ restart_bytes rs ++ rest
    → restarts_from buf (length rs) off ≡ rs
unfolding restarts_from restart_bytes
restarts_from-restart_bytes [] buf off rest h e = refl
restarts_from-restart_bytes (r ∷ rs) buf off rest (h, hs) e =
    let ahead : drop off buf ≡ to_le_bytes32 r ++ (restart_bytes rs ++ rest) =
      e ∙ append_assoc (to_le_bytes32 r) (restart_bytes rs) rest in
    ap₂ ◌∷◌ (u32_at-drop buf off r _ h ahead) (
      restarts_from-restart_bytes rs buf (off + 4) rest hs
        (rw (length-le_bytes 4 r) at (drop-advance off buf (to_le_bytes32 r) _ ahead)))

pub finish-restart_bytes :
    (b : BlockBuilder)
    → finish b ≡ b.buffer ++ (restart_bytes b.restarts ++ to_le_bytes32 (u32 (length b.restarts)))
unfolding finish
finish-restart_bytes b =
    rw (put_restarts-restart_bytes b.restarts b.buffer)
      (append_assoc b.buffer (restart_bytes b.restarts) (to_le_bytes32 (u32 (length b.restarts))))

module _ (b : BlockBuilder) (n : length b.restarts < 2 ^ 32) where
  tail_bytes : Bytes
  tail_bytes = to_le_bytes32 (u32 (length b.restarts))

  pub length-finish : length (finish b) ≡ length b.buffer + length b.restarts * 4 + 4
  length-finish = omega (
    arith,
    ap length (finish-restart_bytes b),
    length-append b.buffer (restart_bytes b.restarts ++ to_le_bytes32 (u32 (length b.restarts))),
    length-append (restart_bytes b.restarts) (to_le_bytes32 (u32 (length b.restarts))),
    length-restart_bytes b.restarts,
    length-le_bytes 4 (u32 (length b.restarts)),
  )

  at_restarts : drop (length b.buffer) (finish b) ≡ restart_bytes b.restarts ++ tail_bytes
  unfolding tail_bytes
  at_restarts = ap (drop (length b.buffer)) (finish-restart_bytes b) ∙ drop-append_length b.buffer _

  at_count : drop (length b.buffer + length b.restarts * 4) (finish b) ≡ tail_bytes ++ []
  at_count =
      rw (length-restart_bytes b.restarts) at (
        drop-advance (length b.buffer) (finish b) (restart_bytes b.restarts) tail_bytes at_restarts)
      ∙ sym (append-nil tail_bytes)

  -- The count is read back from the last four bytes, and the offsets from before them.
  count_read : u32_at (finish b) (length (finish b) - 4) ≡ length b.restarts
  unfolding tail_bytes
  count_read =
      let e : length (finish b) - 4 ≡ length b.buffer + length b.restarts * 4 =
        omega (arith, length-finish) in
      let small : u32 (length b.restarts) ≡ length b.restarts = omega arith in
      rw e (u32_at-drop (finish b) _ (u32 (length b.restarts)) [] (omega arith) at_count ∙ small)

  -- A finished block parses into its bytes and the restart offsets of the builder.
  pub parse_block-finish :
      All (λ r. r < 2 ^ 32) b.restarts
      → parse_block (finish b) ≡ ok (record { contents = finish b; restarts = b.restarts })
  unfolding parse_block
  parse_block-finish h =
      let start : length (finish b) - 4 - length b.restarts * 4 ≡ length b.buffer =
        omega (arith, length-finish) in
      let long : ltb (length (finish b)) 4 ≡ false = le→ltb _ _ (omega (arith, length-finish)) in
      let room : ltb (length (finish b)) (4 + length b.restarts * 4) ≡ false =
        le→ltb _ _ (omega (arith, length-finish)) in
      rw (
        long,
        count_read,
        room,
        start,
        restarts_from-restart_bytes b.restarts (finish b) (length b.buffer) tail_bytes h
            at_restarts,
      )
