-- ===== src/Format/Varint/RoundTrip.antt =====
-- Reading back what the writers of varint.rs wrote, at any position of a buffer.
use compactor.Prelude.{
  ℕ, zero, suc, ◌+◌, ◌*◌, ◌/◌, ◌%◌, ◌^◌, ◌<◌, ◌≡◌, refl, sym, ap, ◌∙◌, bit_or, ◌++◌, ◌∷◌, Bytes,
  some, append_assoc, length-append, length, arith, drop, drop-append_length, ltb, Bool-cases, inl,
  inr, ltb→lt, lt→ltb, true,
}
use compactor.Prelude.Bits.{u64, low_seven, top_bit, bit_or-shifted}
use compactor.Format.Varint.{
  get_varint64_loop, get_varint64, get_varint32, put_varint64, put_varint32, max_rounds,
}
use compactor.Format.Varint.Encoding.{
  groups, groups_last, groups_more, varint, put_varint64-varint, put_varint32-varint,
}
use native.Mathlib.Nat.{div-add-mod}
use native.Mathlib.Numerals.{towards_suc}

-- What a round adds to the result for a byte with the low bits `g`.
pub added_bits :
    (g shift result : ℕ)
    → result < 2 ^ shift
    → result + g * 2 ^ shift < 2 ^ 64
    → bit_or result (u64 (g * 2 ^ shift)) ≡ result + g * 2 ^ shift
added_bits g shift result low fits =
    ap (bit_or result) (let e : u64 (g * 2 ^ shift) ≡ g * 2 ^ shift = omega arith in e)
    ∙ bit_or-shifted shift result g low

module _ (bytes : Bytes) (p : ℕ) where
  last_round :
      (b shift result : ℕ)
      → b < 128
      → result < 2 ^ shift
      → result + b * 2 ^ shift < 2 ^ 64
      → get_varint64_loop (b ∷ bytes) p shift result ≡ some (result + b * 2 ^ shift, p + 1)
  unfolding get_varint64_loop
  last_round b shift result hb low fits =
      ground (arith, low_seven b, top_bit b, added_bits b shift result)

  inner_round :
      (g shift result : ℕ)
      → g < 128
      → shift + 7 < 64
      → result < 2 ^ shift
      → result + g * 2 ^ shift < 2 ^ 64
      → get_varint64_loop ((g + 128) ∷ bytes) p shift result
        ≡ get_varint64_loop bytes (p + 1) (shift + 7) (result + g * 2 ^ shift)
  unfolding get_varint64_loop
  inner_round g shift result hg hs low fits =
      ground (arith, low_seven (g + 128), top_bit (g + 128), added_bits g shift result)

pub seven_more : (s : ℕ) → 2 ^ (s + 7) ≡ 128 * 2 ^ s
seven_more s = simp towards_suc (omega arith)

pub group_fits : (g s r : ℕ) → g < 128 → r < 2 ^ s → r + g * 2 ^ s < 2 ^ (s + 7)
group_fits g s r hg hr = grind (arith, seven_more s)

split_value : (v s : ℕ) → v * 2 ^ s ≡ v % 128 * 2 ^ s + v / 128 * 2 ^ (s + 7)
split_value v s = omega (
  arith,
  ap (λ (t : ℕ). t * 2 ^ s) (div-add-mod v 128),
  ap (λ (t : ℕ). v / 128 * t) (seven_more s),
)

-- A value below 128 is the last group.
last_group :
    (n p shift result v : ℕ) (rest : Bytes)
    → ltb v 128 ≡ true
    → result < 2 ^ shift
    → result + v * 2 ^ shift < 2 ^ 64
    → get_varint64_loop (groups (suc n) v ++ rest) p shift result
      ≡ some (result + v * 2 ^ shift, p + length (groups (suc n) v))
last_group n p shift result v rest t low fits =
    rw (groups_last n v t) (last_round rest p v shift result (ltb→lt v 128 t) low fits)

-- `v` is what is still to be read; it counts from bit `shift` on.
get_varint64_loop-groups :
    (n p shift result v : ℕ) (rest : Bytes)
    → shift + 7 * n ≡ 63
    → v < 128 ^ suc n
    → result < 2 ^ shift
    → result + v * 2 ^ shift < 2 ^ 64
    → get_varint64_loop (groups (suc n) v ++ rest) p shift result
      ≡ some (result + v * 2 ^ shift, p + length (groups (suc n) v))
get_varint64_loop-groups zero p shift result v rest hs hv low fits =
    last_group zero p shift result v rest (lt→ltb v 128 (omega arith)) low fits
get_varint64_loop-groups (suc n) p shift result v rest hs hv low fits =
    elim (Bool-cases (ltb v 128)) [
      | inl t ↦ last_group (suc n) p shift result v rest t low fits
      | inr t ↦
          let total = split_value v shift in
          let next =
            get_varint64_loop-groups n (p + 1) (shift + 7) (result + v % 128 * 2 ^ shift) (v / 128)
              rest (omega arith) (omega arith) (group_fits (v % 128) shift result (omega arith) low)
              (omega arith) in
          let read =
            inner_round (groups (suc n) (v / 128) ++ rest) p (v % 128) shift result (omega arith)
              (omega arith) low (omega arith)
            ∙ next in
          rw (groups_more (suc n) v t) (ground (arith, total, read))
    ]

module _ (buf : Bytes) (p v : ℕ) (rest : Bytes) (ahead : drop p buf ≡ varint v ++ rest) where
  pub get_varint64-drop : v < 2 ^ 64 → get_varint64 buf p ≡ some (v, p + length (varint v))
  unfolding get_varint64 varint
  get_varint64-drop h =
      ap (λ (bytes : Bytes). get_varint64_loop bytes p 0 0) ahead
      ∙ get_varint64_loop-groups 9 p 0 0 v rest refl (omega arith) (omega arith) (omega arith)
      ∙ ap (λ (k : ℕ). some (k, p + length (groups max_rounds v)))
          (let e : 0 + v * 1 ≡ v = omega arith in e)

  pub get_varint32-drop : v < 2 ^ 32 → get_varint32 buf p ≡ some (v, p + length (varint v))
  unfolding get_varint32
  get_varint32-drop h = ground (arith, get_varint64-drop)

module _ (v : ℕ) (front rest : Bytes) where
  -- Every u64 that `put_varint64` appends to a buffer is read back by `get_varint64` from the
  -- position where the buffer ended, whatever follows it, and the position moves behind it.
  pub get_varint64-put_varint64 :
      v < 2 ^ 64
      → get_varint64 (put_varint64 front v ++ rest) (length front)
        ≡ some (v, length (put_varint64 front v))
  get_varint64-put_varint64 h =
      rw (put_varint64-varint front v, append_assoc front (varint v) rest)
        (get_varint64-drop _ _ v rest (drop-append_length front (varint v ++ rest)) h
          ∙ ap (λ (k : ℕ). some (v, k)) (sym (length-append front (varint v))))

  -- The same of `put_varint32` and `get_varint32`, for every u32.
  pub get_varint32-put_varint32 :
      v < 2 ^ 32
      → get_varint32 (put_varint32 front v ++ rest) (length front)
        ≡ some (v, length (put_varint32 front v))
  get_varint32-put_varint32 h =
      rw (put_varint32-varint front v, append_assoc front (varint v) rest)
        (get_varint32-drop _ _ v rest (drop-append_length front (varint v ++ rest)) h
          ∙ ap (λ (k : ℕ). some (v, k)) (sym (length-append front (varint v))))
