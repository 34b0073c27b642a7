-- ===== src/Format/IndexBlock/Reading.antt =====
-- One round of the walk over an index block, over the bytes of an entry.
use compactor.Prelude.{
  ℕ, ◌+◌, ◌-◌, ◌^◌, ◌≤◌, ◌<◌, ◌==◌, ◌≡◌, refl, ap, ap₂, ◌∙◌, Bool, true, false, ◌||◌, Bytes, List,
  ◌++◌, Option, some, none, take, drop, length, le→ltb, arith, append_assoc, slice-drop, At,
  At-advance, take-drop_cover, length-drop, length-append,
}
use compactor.Prelude.Bits.{u64}
use compactor.Format.Error.{ok}
use compactor.Format.Varint.Encoding.{varint}
use compactor.Format.Varint.RoundTrip.{get_varint32-drop, get_varint64-drop}
use compactor.Format.Checksum.{BlockHandle}
use compactor.Format.Trailer.{block_trailer_size}
use compactor.Format.IndexBlock.{is_offset, read_handle, read_index_entry, size_delta}
use compactor.Format.IndexBlock.ZigZag.{zigzag, get_varsigned64-drop}
use compactor.Format.IndexBlock.Encoding.{
  IndexFits, Follows, IsLinked, handle_bytes, index_entry_bytes,
}

handle_eq : (a b : BlockHandle) → a.offset ≡ b.offset → a.size ≡ b.size → a ≡ b
handle_eq a b e e' = ap₂ handle e e'
  where
    handle : ℕ → ℕ → BlockHandle
    handle x y = record { offset = x; size = y }

read_handle-handle_bytes :
    (buf : Bytes) (pos : ℕ) (full : Bool) (prev : Option BlockHandle) (last : Bytes)
    (h : BlockHandle) (rest : Bytes)
    → At buf pos (handle_bytes full prev h ++ rest)
    → (prev ≡ none → full ≡ true)
    → IsLinked last prev
    → Follows prev h
    → h.offset < 2 ^ 64
    → h.size < 2 ^ 64
    → read_handle buf pos full prev ≡ ok (h, pos + length (handle_bytes full prev h))
unfolding read_handle
read_handle-handle_bytes buf pos true prev last h rest at l linked fol ho hs =
    let at' : At buf pos (varint h.offset ++ (varint h.size ++ rest)) =
      (at.0, at.1 ∙ simp append_assoc) in
    let at₁ = At-advance buf pos (varint h.offset) (varint h.size ++ rest) at' in
    rw
      (
        get_varint64-drop buf pos h.offset (varint h.size ++ rest) at'.1 ho,
        get_varint64-drop buf (pos + length (varint h.offset)) h.size rest at₁.1 hs,
        length-append (varint h.offset) (varint h.size),
      )
      (ap (λ (k : ℕ). ok (h, k))
        (let e : pos + length (varint h.offset) + length (varint h.size)
              ≡ pos + (length (varint h.offset) + length (varint h.size)) =
            omega arith in
          e))
read_handle-handle_bytes buf pos false none last h rest at l linked fol ho hs = absurd (cc (l refl))
read_handle-handle_bytes buf pos false (some prev) last h rest at l linked fol ho hs =
    rw (get_varsigned64-drop buf pos (size_delta h prev) rest at.1 (omega arith)) (
      ap (λ (x : BlockHandle). ok (x, pos + length (varint (zigzag (size_delta h prev)))))
        (handle_eq
          (record {
            offset = u64 (prev.offset + prev.size + block_trailer_size);
            size = u64 (prev.size + size_delta h prev);
          })
          h (omega arith) (omega arith)))

-- One entry, read back with the last key and handle at hand.
module _ (buf : Bytes) (offsets : List ℕ) (pos shared : ℕ) (last : Bytes)
    (prev : Option BlockHandle) (key : Bytes) (h : BlockHandle) (rest : Bytes)
    (fits : IndexFits (key, h)) (linked : IsLinked last prev) (fol : Follows prev h)
    (in_last : shared ≤ length last) (in_key : shared ≤ length key)
    (agree : take shared last ≡ take shared key)
    (full : (is_offset offsets pos || shared == 0) ≡ (shared == 0))
    (can_delta : prev ≡ none → (shared == 0) ≡ true) where
  pub read_index_entry-bytes :
      At buf pos (index_entry_bytes shared prev key h ++ rest)
      → read_index_entry buf offsets pos last prev
        ≡ ok (key, h, pos + length (index_entry_bytes shared prev key h))
  unfolding read_index_entry
  read_index_entry-bytes at₀ =
      let n = length key - shared in
      let hb = handle_bytes (shared == 0) prev h in
      let r₃ = hb ++ rest in
      let r₂ = drop shared key ++ r₃ in
      let r₁ = varint n ++ r₂ in
      let at : At buf pos (varint shared ++ r₁) = (at₀.0, at₀.1 ∙ simp append_assoc) in
      let p₁ = pos + length (varint shared) in
      let p₂ = p₁ + length (varint n) in
      let at₁ = At-advance buf pos (varint shared) r₁ at in
      let at₂ = At-advance buf p₁ (varint n) r₂ at₁ in
      let at₃ = rw (length-drop shared key) at (At-advance buf p₂ (drop shared key) r₃ at₂) in
      let delta =
        rw (length-drop shared key) at (slice-drop p₂ buf (drop shared key) r₃ at₂.1 at₂.0) in
      rw
        (
          get_varint32-drop buf pos shared r₁ at.1 (omega (arith, fits.0)),
          get_varint32-drop buf p₁ n r₂ at₁.1 (omega (arith, fits.0)),
          le→ltb (length last) shared in_last,
          delta,
          full,
          read_handle-handle_bytes buf (p₂ + n) (shared == 0) prev last h rest at₃ can_delta linked
              fol fits.1 fits.2,
          take-drop_cover shared last key agree,
        )
        (ap (λ (k : ℕ). ok (key, h, k))
          (let e : p₂ + n + length hb ≡ pos + length (index_entry_bytes shared prev key h) = omega (
            arith,
            length-append (varint shared) (varint n ++ (drop shared key ++ hb)),
            length-append (varint n) (drop shared key ++ hb),
            length-append (drop shared key) hb,
            length-drop shared key,
          ) in
            e))
