-- ===== src/Format/Varint/Encoding.antt =====
-- What `put_varint64` appends, in plain arithmetic.
use compactor.Prelude.{
  ℕ, zero, suc, ◌+◌, ◌/◌, ◌%◌, ◌≤◌, ◌<◌, ◌≡◌, false, sym, ap, ◌∙◌, bit_and, bit_or, ◌++◌, [], ◌∷◌,
  Bytes, append_assoc, append-nil, ltb, if◌then◌else◌, length, All, arith, Bool-cases, inl, inr,
  true,
}
use compactor.Prelude.Bits.{u8, low_seven, set_top}
use compactor.Format.Varint.{put_varint64_loop, put_varint64, put_varint32, max_rounds}

-- Groups of seven bits, lowest first, the top bit set on all but the last.
unfoldable pub groups : ℕ → ℕ → Bytes
groups zero v = []
groups (suc n) v =
    let rest = groups n (v / 128) in if ltb v 128 then v ∷ [] else (v % 128 + 128) ∷ rest

pub groups_last : (n v : ℕ) → ltb v 128 ≡ true → groups (suc n) v ≡ v ∷ []
unfolding groups
groups_last n v e = rw e

pub groups_more :
    (n v : ℕ) → ltb v 128 ≡ false → groups (suc n) v ≡ (v % 128 + 128) ∷ groups n (v / 128)
unfolding groups
groups_more n v e = rw e

unfoldable pub varint : ℕ → Bytes
varint v = groups max_rounds v

pushed_group : (v : ℕ) → bit_or (bit_and (u8 v) 0x7f) 0x80 ≡ v % 128 + 128
pushed_group v =
    ap (λ (b : ℕ). bit_or b 0x80) (low_seven (u8 v) (omega arith))
    ∙ set_top (u8 v % 128) (omega arith)
    ∙ omega arith

pushed_last : (v : ℕ) → ltb v 128 ≡ true → u8 v ≡ v
pushed_last v e = ground arith

put_varint64_loop-groups :
    (fuel : ℕ) (out : Bytes) (v : ℕ) → put_varint64_loop fuel out v ≡ out ++ groups fuel v
unfolding put_varint64_loop groups
put_varint64_loop-groups zero out v = sym (append-nil out)
put_varint64_loop-groups (suc fuel) out v = elim (Bool-cases (ltb v 128)) [
  | inl e ↦ rw (e, pushed_last v e)
  | inr e ↦
      rw (e, pushed_group v)
        (put_varint64_loop-groups fuel (out ++ (v % 128 + 128) ∷ []) (v / 128)
          ∙ append_assoc out ((v % 128 + 128) ∷ []) (groups fuel (v / 128)))
]

pub put_varint64-varint : (out : Bytes) (v : ℕ) → put_varint64 out v ≡ out ++ varint v
unfolding put_varint64 varint
put_varint64-varint out v = put_varint64_loop-groups max_rounds out v

pub put_varint32-varint : (out : Bytes) (v : ℕ) → put_varint32 out v ≡ out ++ varint v
unfolding put_varint32
put_varint32-varint out v = put_varint64-varint out v

length-groups : (n v : ℕ) → (1 ≤ length (groups (suc n) v)) × (length (groups (suc n) v) ≤ suc n)
unfolding groups
length-groups zero v = ground arith
length-groups (suc n) v = ground (arith, length-groups n (v / 128))

pub length-varint : (v : ℕ) → (1 ≤ length (varint v)) × (length (varint v) ≤ 10)
unfolding varint
length-varint v = length-groups 9 v

groups-IsByte : (n v : ℕ) → All (λ b. b < 256) (groups n v)
unfolding groups
groups-IsByte zero v = tt
groups-IsByte (suc n) v = ground (arith, groups-IsByte n (v / 128))

pub varint-IsByte : (v : ℕ) → All (λ b. b < 256) (varint v)
unfolding varint
varint-IsByte v = groups-IsByte max_rounds v
