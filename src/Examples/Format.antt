-- ===== src/Examples/Format.antt =====
-- Runs of the codec, and its theorems at concrete inputs.
use compactor.Prelude.{
  Bytes, [], ◌∷◌, ◌++◌, ◌≡◌, refl, some, none, length, arith, drop, replicate, ◌⊎◌,
}
use compactor.Format.Error.{ok, err, short_internal_key}
use compactor.Format.Varint.{get_varint64, get_varint32, put_varint64, put_varint32}
use compactor.Format.Varint.Bounds.{EndsWithin, Unended, get_varint64-outcome}
use compactor.Format.Varint.RoundTrip.{get_varint64-put_varint64, get_varint32-put_varint32}
use compactor.Format.InternalKey.{split, from_byte}
use compactor.Format.InternalKey.Laws.{pack_key, split-pack_key}
use compactor.Format.SstBuilder.{zero_out_seqno, split-zero_out_seqno}

put_300 : put_varint64 (7 ∷ []) 300 ≡ 7 ∷ 0xac ∷ 0x02 ∷ []
unfolding put_varint64
put_300 = refl

-- Ten bytes with the top bit set are one too many.
get_unended :
    get_varint64 (0xff ∷ 0xff ∷ 0xff ∷ 0xff ∷ 0xff ∷ 0xff ∷ 0xff ∷ 0xff ∷ 0xff ∷ 0xff ∷ 0 ∷ []) 0
    ≡ none
unfolding get_varint64
get_unended = refl

get_two : get_varint64 (0xac ∷ 0x02 ∷ 9 ∷ []) 0 ≡ some (300, 2)
unfolding get_varint64
get_two = refl

split_short : split (1 ∷ 2 ∷ []) ≡ err short_internal_key
unfolding split
split_short = refl

get_varint64-put_varint64_example :
    get_varint64 (put_varint64 (7 ∷ []) 300 ++ 9 ∷ []) 1
    ≡ some (300, length (put_varint64 (7 ∷ []) 300))
get_varint64-put_varint64_example = get_varint64-put_varint64 300 (7 ∷ []) (9 ∷ []) (omega arith)

get_varint32-put_varint32_example :
    get_varint32 (put_varint32 (7 ∷ []) 300 ++ 9 ∷ []) 1
    ≡ some (300, length (put_varint32 (7 ∷ []) 300))
get_varint32-put_varint32_example = get_varint32-put_varint32 300 (7 ∷ []) (9 ∷ []) (omega arith)

abbrev unended : Bytes
unended = 7 ∷ replicate 11 0xff

get_varint64-outcome_example :
    EndsWithin 10 (drop 1 unended) 1 (get_varint64 unended 1)
    ⊎ Unended 10 (drop 1 unended) (get_varint64 unended 1)
get_varint64-outcome_example = get_varint64-outcome unended 1

split-pack_key_example :
    split (pack_key (b'k' ∷ []) 2561)
    ≡ ok (record { user_key = b'k' ∷ []; sequence = 10; value_type = from_byte 1 })
split-pack_key_example = split-pack_key (b'k' ∷ []) 2561 (omega arith)

split-zero_out_seqno_example :
    (zeroed : Bytes) × (zero_out_seqno (pack_key (b'k' ∷ []) 2561) ≡ some zeroed)
    × (split zeroed ≡ ok (record { user_key = b'k' ∷ []; sequence = 0; value_type = from_byte 1 }))
split-zero_out_seqno_example =
    split-zero_out_seqno (pack_key (b'k' ∷ []) 2561)
      (record { user_key = b'k' ∷ []; sequence = 10; value_type = from_byte 1 })
      (split-pack_key (b'k' ∷ []) 2561 (omega arith))
