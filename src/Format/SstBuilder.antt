-- ===== src/Format/SstBuilder.antt =====
-- crates/compactor/src/format/sst_builder.rs, here `zero_out_seqno`, in Build the rest. `none` is a
-- panic, of a key that is shorter than its suffix.
pub mod Build
pub mod Stored
pub mod Written
pub mod Loop
pub mod Meta
pub mod Whole
pub mod Built
use compactor.Prelude.{
  ℕ, ◌-◌, ◌/◌, ◌%◌, ◌^◌, ◌<◌, ◌≡◌, refl, ap, ◌∙◌, Bytes, ◌++◌, Option, none, some, take, drop,
  length, ltb, bit_and, if◌then◌else◌, inl, inr, Bool-cases, arith,
}
use compactor.Prelude.Bits.{u8, low_byte}
use compactor.Format.Error.{ok}
use compactor.Format.Fixed.{from_le_bytes, to_le_bytes64}
use compactor.Format.InternalKey.{InternalKey, split, from_byte}
use compactor.Format.InternalKey.Laws.{pack_key, split-pack_key}

unfoldable pub zero_out_seqno : Bytes → Option Bytes
zero_out_seqno internal_key =
    if ltb (length internal_key) 8
    then none
    else let at = length internal_key - 8 in
      let value_type = bit_and (from_le_bytes (drop at internal_key)) 0xff in
      some (take at internal_key ++ to_le_bytes64 value_type)

split_zeroed :
    (user : Bytes) (packed : ℕ)
    → split (user ++ to_le_bytes64 (bit_and packed 0xff))
      ≡ ok (record {
        user_key = user;
        sequence = 0;
        value_type = from_byte (u8 (bit_and packed 0xff));
      })
unfolding pack_key
split_zeroed user packed =
    let v = bit_and packed 0xff in
    let small : v < 256 = omega (arith, low_byte packed) in
    let none_left : v / 2 ^ 8 ≡ 0 = omega arith in
    let same : v % 2 ^ 8 ≡ u8 v = omega arith in
    rw (none_left, same) at (split-pack_key user v (omega arith))

abbrev parsed : Bytes → InternalKey
parsed k =
    let packed = from_le_bytes (drop (length k - 8) k) in
    record {
      user_key = take (length k - 8) k;
      sequence = packed / 2 ^ 8;
      value_type = from_byte (u8 (bit_and packed 0xff));
    }

-- An internal key that splits is rewritten without a panic to one that splits into the same user
-- key and type, and the sequence number 0.
pub split-zero_out_seqno :
    (internal_key : Bytes) (ik : InternalKey)
    → split internal_key ≡ ok ik
    → (zeroed : Bytes) × (zero_out_seqno internal_key ≡ some zeroed)
      × (split zeroed ≡ ok (record ik { sequence = 0 }))
unfolding zero_out_seqno split
split-zero_out_seqno internal_key ik e = elim (Bool-cases (ltb (length internal_key) 8)) [
  | inl t ↦ absurd (cc (rw t at e))
  | inr t ↦
      let made : ok (parsed internal_key) ≡ ok ik = rw t at e in
      let same : parsed internal_key ≡ ik = cc in
      rw t (
        _,
        refl,
        split_zeroed (take (length internal_key - 8) internal_key)
              (from_le_bytes (drop (length internal_key - 8) internal_key))
            ∙ ap (λ (x : InternalKey). ok (record x { sequence = 0 })) same,
      )
]
