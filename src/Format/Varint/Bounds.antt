-- ===== src/Format/Varint/Bounds.antt =====
-- The readers of varint.rs on any buffer, well formed or not.
use compactor.Prelude.{
  ℕ, zero, suc, ◌+◌, ◌*◌, ◌^◌, ◌≤◌, ◌<◌, ◌≡◌, ◌≢◌, refl, ap, ◌∙◌, ◌%◌, bit_and, bit_or, Bytes,
  Option, some, none, length, length-drop, arith, take, drop, All, get_elem?, get_elem?-some_lt,
  Option-cases, Bool-cases, ◌⊎◌, inl, inr, leb, leb→le, ◌==◌, [], ◌∷◌,
}
use compactor.Prelude.Bits.{u64, bit_or-shifted, low_seven_bits}
use compactor.Format.Varint.RoundTrip.{added_bits, group_fits, seven_more}
use native.Mathlib.Nat.{pow-le-pow_right}
use compactor.Format.Varint.{get_varint64_loop, get_varint64, get_varint32}

-- The top bit of a byte that is not the last one is set, and the last one's is clear.
abbrev pub Continues : ℕ → Type 0
Continues byte = bit_and byte 0x80 ≢ 0

abbrev pub Ends : ℕ → Type 0
Ends byte = bit_and byte 0x80 ≡ 0

-- The number whose groups of seven bits, the lowest first, stand in the low bits of the bytes.
abbrev pub number_of : Bytes → ℕ
number_of [] = 0
number_of (byte ∷ bytes) = bit_and byte 0x7f + 128 * number_of bytes

-- A read of at most `limit` bytes ends: the first byte that ends is number `n`, it is one of them,
-- and the read stops behind it, with the number up to there. What does not fit a u64 is cut off.
abbrev pub EndsWithin : ℕ → Bytes → ℕ → Option (ℕ × ℕ) → Type 0
EndsWithin limit bytes p read =
    (n : ℕ) × (last : ℕ) × (read ≡ some (u64 (number_of (take (suc n) bytes)), p + suc n))
    × (n < limit)
    × All Continues (take n bytes)
    × (get_elem? bytes n ≡ some last)
    × Ends last

-- It does not: none of the bytes ends.
abbrev pub Unended : ℕ → Bytes → Option (ℕ × ℕ) → Type 0
Unended limit bytes read = (read ≡ none) × All Continues (take limit bytes)

-- The same from the middle of a number, of which `shift` bits are in `result`.
abbrev Stops : ℕ → Bytes → (p shift result : ℕ) → Option (ℕ × ℕ) → Type 0
Stops limit bytes p shift result read =
    (n : ℕ) × (last : ℕ) × (read
      ≡ some (u64 (result + 2 ^ shift * number_of (take (suc n) bytes)), p + suc n))
    × (n < limit)
    × All Continues (take n bytes)
    × (get_elem? bytes n ≡ some last)
    × Ends last

last_value :
    (g result : ℕ)
    → result < 2 ^ 63
    → bit_or result (u64 (g * 2 ^ 63)) ≡ u64 (result + 2 ^ 63 * (g + 128 * 0))
last_value g result h =
    let cut : u64 (g * 2 ^ 63) ≡ g % 2 * 2 ^ 63 = omega arith in
    ap (bit_or result) cut ∙ bit_or-shifted 63 result (g % 2) h ∙ omega arith

inner_value :
    (g shift result : ℕ)
    → g < 128
    → shift + 7 < 64
    → result < 2 ^ shift
    → (bit_or result (u64 (g * 2 ^ shift)) ≡ result + g * 2 ^ shift)
      × (result + g * 2 ^ shift < 2 ^ (shift + 7))
      × (result + g * 2 ^ shift < 2 ^ 64)
inner_value g shift result hg hs low =
    let below = group_fits g shift result hg low in
    let within : shift + 7 ≤ 64 = omega arith in
    let power : 2 ^ (shift + 7) ≤ 2 ^ 64 = pow-le-pow_right (omega arith) within in
    let fits : result + g * 2 ^ shift < 2 ^ 64 = omega arith in
    (added_bits g shift result low fits, below, fits)

round_value :
    (g shift result : ℕ)
    → g < 128
    → (shift ≡ 63) ⊎ (shift + 7 < 64)
    → result < 2 ^ shift
    → bit_or result (u64 (g * 2 ^ shift)) ≡ u64 (result + 2 ^ shift * (g + 128 * 0))
round_value g shift result hg (inl e) low = rw e (last_value g result (rw e at low))
round_value g shift result hg (inr hs) low =
    let (e, _, fits) = inner_value g shift result hg hs low in e ∙ omega arith

Stops-next :
    (limit : ℕ) (byte : ℕ) (bytes : Bytes) (p shift result result' : ℕ) (read : Option (ℕ × ℕ))
    → Continues byte
    → result' ≡ result + bit_and byte 0x7f * 2 ^ shift
    → Stops limit bytes (p + 1) (shift + 7) result' read
    → Stops (suc limit) (byte ∷ bytes) p shift result read
Stops-next limit byte bytes p shift result result' read c h (n, last, e, l, inner, here, ends) =
    let moved : p + 1 + suc n ≡ p + suc (suc n) = omega arith in
    let rest = number_of (take (suc n) bytes) in
    let grown : result' + 2 ^ (shift + 7) * rest
        ≡ result + 2 ^ shift * (bit_and byte 0x7f + 128 * rest) =
      omega (arith, h, ap (λ (t : ℕ). t * rest) (seven_more shift)) in
    (suc n, last, rw (moved, grown) at e, omega arith, (c, inner), here, ends)

get_varint64_loop-outcome :
    (limit : ℕ) (bytes : Bytes) (p shift result : ℕ)
    → shift + 7 * limit ≡ 70
    → 0 < limit
    → result < 2 ^ shift
    → Stops limit bytes p shift result (get_varint64_loop bytes p shift result)
      ⊎ Unended limit bytes (get_varint64_loop bytes p shift result)
unfolding get_varint64_loop
get_varint64_loop-outcome zero bytes p shift result h pos low = absurd (omega arith)
get_varint64_loop-outcome (suc limit) [] p shift result h pos low = inr (refl, tt)
get_varint64_loop-outcome (suc limit) (byte ∷ bytes) p shift result h pos low =
    let g = bit_and byte 0x7f in
    let hg : g < 128 = omega (arith, low_seven_bits byte) in
    let result' = bit_or result (u64 (g * 2 ^ shift)) in
    let again = get_varint64_loop bytes (p + 1) (shift + 7) result' in
    elim (Bool-cases (bit_and byte 0x80 == 0)) [
      | inl t ↦
          let place : (shift ≡ 63) ⊎ (shift + 7 < 64) = ground arith in
          inl (
            0,
            byte,
            rw (t, get_varint64_loop)
                (ap (λ (v : ℕ). some (v, p + 1)) (round_value g shift result hg place low)),
            omega arith,
            tt,
            refl,
            ground (arith, t),
          )
      | inr t ↦
          let c : Continues byte = λ e. ground (arith, t, e) in
          elim (Bool-cases (leb 64 (shift + 7))) [
            | inl late ↦
                let last : limit ≡ 0 = omega (arith, leb→le 64 (shift + 7) late) in
                inr (rw (t, late, get_varint64_loop) refl, (c, rw last tt))
            | inr more ↦
                let limited : 0 < limit = ground (arith, more) in
                let (e, below, _) = inner_value g shift result hg (omega arith) low in
                elim (get_varint64_loop-outcome limit bytes (p + 1) (shift + 7) result'
                  (omega arith) limited (rw e below)) [
                    | inl ended ↦ inl (
                        rw (t, more, get_varint64_loop)
                          (Stops-next limit byte bytes p shift result result' again c e ended))
                    | inr (none_read, unended) ↦
                        inr (rw (t, more, get_varint64_loop) none_read, (c, unended))
                  ]
          ]
    ]

-- Every read of a u64, whatever the buffer and the position, has one of two results. Where one of
-- the first ten bytes from the position on has a clear top bit, the read succeeds with the low seven
-- bits of the bytes up to the first such one, the lowest group first and modulo 2 ^ 64, and the
-- position moves just behind that byte. Otherwise the buffer ends before such a byte, or the ten
-- bytes have all their top bit set, and the read is `None`.
pub get_varint64-outcome :
    (buf : Bytes) (p : ℕ)
    → EndsWithin 10 (drop p buf) p (get_varint64 buf p)
      ⊎ Unended 10 (drop p buf) (get_varint64 buf p)
unfolding get_varint64
get_varint64-outcome buf p =
    elim (get_varint64_loop-outcome 10 (drop p buf) p 0 0 refl (omega arith) (omega arith)) [
      | inr unended ↦ inr unended
      | inl (n, last, read, few, inner, here, ends) ↦
          let number = number_of (take (suc n) (drop p buf)) in
          let whole : 0 + 1 * number ≡ number = omega arith in
          inl
            (n, last, read ∙ ap (λ (v : ℕ). some (u64 v, p + suc n)) whole, few, inner, here, ends)
    ]

get_varint64_moves :
    (buf : Bytes) (p v q : ℕ)
    → get_varint64 buf p ≡ some (v, q)
    → (p < q) × (q ≤ length buf) × (q ≤ p + 10)
get_varint64_moves buf p v q e = elim (get_varint64-outcome buf p) [
  | inr (gone, _) ↦ cc
  | inl (n, last, read, few, _, here, _) ↦
      let within = get_elem?-some_lt (drop p buf) n here in
      let moved : p + suc n ≡ q = ground (arith, e, read) in
      omega (arith, moved, within, length-drop p buf)
]

pub get_varint32_moves :
    (buf : Bytes) (p v q : ℕ)
    → get_varint32 buf p ≡ some (v, q)
    → (v < 2 ^ 32) × (p < q) × (q ≤ length buf) × (q ≤ p + 10)
unfolding get_varint32
get_varint32_moves buf p v q e = elim (Option-cases (get_varint64 buf p)) [
  | inl bad ↦ cc (rw bad at e)
  | inr ((w, r), good) ↦ ground (arith, rw good at e, get_varint64_moves buf p w r good)
]
