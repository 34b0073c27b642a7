-- ===== src/Format/IndexBlock/ZigZag.antt =====
-- The zigzag code of signed numbers is read back.
use compactor.Prelude.{
  ℕ, ◌+◌, ◌-◌, ◌*◌, ◌/◌, ◌^◌, ◌≤◌, ◌<◌, ◌≡◌, refl, ◌∙◌, Bytes, ◌++◌, some, length, drop, leb,
  bit_xor, bit_and, inl, inr, Bool-cases, arith, if◌then◌else◌,
}
use compactor.Prelude.Bits.{u64, bit_xor-zero, flip_bits, low_bit}
use compactor.Format.Varint.Encoding.{varint, put_varint64-varint}
use compactor.Format.Varint.RoundTrip.{get_varint64-drop}
use compactor.Format.IndexBlock.{sign_bits, put_varsigned64, get_varsigned64}

-- 0, -1, 1, -2, … as 0, 1, 2, 3, …
unfoldable pub zigzag : ℕ → ℕ
zigzag v = if leb (2 ^ 63) v then 2 ^ 65 - 1 - v * 2 else v * 2

zigzag-bits : (v : ℕ) → v < 2 ^ 64 → bit_xor (u64 (v * 2 ^ 1)) (sign_bits v) ≡ zigzag v
unfolding zigzag
zigzag-bits v h = elim (Bool-cases (leb (2 ^ 63) v)) [
  | inl t ↦
      let big : 2 ^ 63 ≤ v = ground arith in
      rw t (flip_bits (u64 (v * 2 ^ 1)) (omega arith) ∙ omega arith)
  | inr t ↦
      let small : v < 2 ^ 63 = ground arith in rw t (bit_xor-zero (u64 (v * 2 ^ 1)) ∙ omega arith)
]

pub zigzag-lt : (v : ℕ) → v < 2 ^ 64 → zigzag v < 2 ^ 64
unfolding zigzag
zigzag-lt v h = ground arith

unzigzag :
    (v : ℕ) → v < 2 ^ 64 → bit_xor (zigzag v / 2 ^ 1) (u64 (2 ^ 64 - bit_and (zigzag v) 1)) ≡ v
unfolding zigzag
unzigzag v h = elim (Bool-cases (leb (2 ^ 63) v)) [
  | inl t ↦
      let big : 2 ^ 63 ≤ v = ground arith in
      let odd : bit_and (2 ^ 65 - 1 - v * 2) 1 ≡ 1 = low_bit (2 ^ 65 - 1 - v * 2) ∙ omega arith in
      rw (t, odd) (flip_bits ((2 ^ 65 - 1 - v * 2) / 2 ^ 1) (omega arith) ∙ omega arith)
  | inr t ↦
      let even : bit_and (v * 2) 1 ≡ 0 = low_bit (v * 2) ∙ omega arith in
      rw (t, even) (bit_xor-zero (v * 2 / 2 ^ 1) ∙ omega arith)
]

pub put_varsigned64-varint :
    (out : Bytes) (v : ℕ) → v < 2 ^ 64 → put_varsigned64 out v ≡ out ++ varint (zigzag v)
unfolding put_varsigned64
put_varsigned64-varint out v h = rw (zigzag-bits v h) (put_varint64-varint out (zigzag v))

pub get_varsigned64-drop :
    (buf : Bytes) (p v : ℕ) (rest : Bytes)
    → drop p buf ≡ varint (zigzag v) ++ rest
    → v < 2 ^ 64
    → get_varsigned64 buf p ≡ some (v, p + length (varint (zigzag v)))
unfolding get_varsigned64
get_varsigned64-drop buf p v rest ahead h =
    rw (get_varint64-drop buf p (zigzag v) rest ahead (zigzag-lt v h), unzigzag v h) refl
