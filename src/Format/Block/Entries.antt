-- ===== src/Format/Block/Entries.antt =====
-- The walk over the entries of a data block, over bytes that a builder wrote.
use compactor.Prelude.{
  ℕ, zero, suc, ◌+◌, ◌-◌, ◌≤◌, ◌<◌, ◌≡◌, ap, ◌∙◌, Bytes, List, [], ◌∷◌, ◌++◌, take, drop, length,
  lt→ltb, le→ltb, All, arith, append_assoc, slice-drop, At, At-advance, take-drop_cover, At-end,
  length-drop,
}
use compactor.Format.Error.{ok}
use compactor.Format.Varint.Encoding.{varint, length-varint}
use compactor.Format.Varint.RoundTrip.{get_varint32-drop}
use compactor.Format.BlockBuilder.Encoding.{
  Entry, Fits, entry_bytes, length-entry_bytes, encoded, shared_at, shared_at_bounds, next_counter,
}
use compactor.Format.Block.{read_entry, entries_loop}

-- One entry, read back with the last key at hand.
module _ (buf : Bytes) (pos shared : ℕ) (last key value rest : Bytes) (fits : Fits (key, value))
    (in_last : shared ≤ length last) (in_key : shared ≤ length key)
    (agree : take shared last ≡ take shared key) where
  read_entry-entry_bytes :
      At buf pos (entry_bytes shared key value ++ rest)
      → read_entry buf pos last ≡ ok (key, value, pos + length (entry_bytes shared key value))
  unfolding read_entry
  read_entry-entry_bytes at₀ =
      let n = length key - shared in
      let m = length value in
      let r₄ = value ++ rest in
      let r₃ = drop shared key ++ r₄ in
      let r₂ = varint m ++ r₃ in
      let r₁ = varint n ++ r₂ in
      let at : At buf pos (varint shared ++ r₁) = (at₀.0, at₀.1 ∙ simp append_assoc) in
      let p₁ = pos + length (varint shared) in
      let p₂ = p₁ + length (varint n) in
      let p₃ = p₂ + length (varint m) in
      let at₁ = At-advance buf pos (varint shared) r₁ at in
      let at₂ = At-advance buf p₁ (varint n) r₂ at₁ in
      let at₃ = At-advance buf p₂ (varint m) r₃ at₂ in
      let at₄ = rw (length-drop shared key) at (At-advance buf p₃ (drop shared key) r₄ at₃) in
      let delta =
        rw (length-drop shared key) at (slice-drop p₃ buf (drop shared key) r₄ at₃.1 at₃.0) in
      rw
        (
          get_varint32-drop buf pos shared r₁ at.1 (omega arith),
          get_varint32-drop buf p₁ n r₂ at₁.1 (omega arith),
          get_varint32-drop buf p₂ m r₃ at₂.1 fits.1,
          le→ltb (length last) shared in_last,
          delta,
          slice-drop (p₃ + n) buf value rest at₄.1 at₄.0,
          take-drop_cover shared last key agree,
        )
        (ap (λ (k : ℕ). ok (key, value, k))
          (let e : p₃ + n + m ≡ pos + length (entry_bytes shared key value) =
              omega (arith, length-entry_bytes shared key value) in
            e))

-- The callback over a list of entries, first to last.
abbrev pub fold_entries : {S : Type 0} → (S → Bytes → Bytes → S) → S → List Entry → S
fold_entries f s [] = s
fold_entries f s ((key, value) ∷ es) = fold_entries f (f s key value) es

module _ {S : Type 0} (f : S → Bytes → Bytes → S) (interval : ℕ) (buf : Bytes) where
  loop_done :
      (fuel pos : ℕ) (last : Bytes) (s : S)
      → At buf pos []
      → 0 < fuel
      → entries_loop f fuel buf pos last s ≡ (s, ok tt)
  unfolding entries_loop
  loop_done zero pos last s a h = absurd (omega arith)
  loop_done (suc fuel) pos last s a h =
      rw (le→ltb pos (length buf) (omega (arith, At-end buf pos a)), entries_loop)

  loop_step :
      (fuel pos pos' : ℕ) (last key value : Bytes) (s : S)
      → pos < length buf
      → read_entry buf pos last ≡ ok (key, value, pos')
      → entries_loop f (suc fuel) buf pos last s ≡ entries_loop f fuel buf pos' key (f s key value)
  unfolding entries_loop
  loop_step fuel pos pos' last key value s h e = rw (lt→ltb pos (length buf) h, e, entries_loop)

  -- Standing before the bytes of some entries, with fuel for all that is ahead, the loop calls the
  -- callback on each of them in turn and ends well.
  pub entries_loop-encoded :
      (es : List Entry) (fuel counter pos : ℕ) (last : Bytes) (s : S)
      → At buf pos (encoded interval counter last es)
      → All Fits es
      → length buf < fuel + pos
      → entries_loop f fuel buf pos last s ≡ (fold_entries f s es, ok tt)
  unfolding encoded
  entries_loop-encoded [] fuel counter pos last s a h m =
      loop_done fuel pos last s a (omega (arith, At-end buf pos a))
  entries_loop-encoded ((key, value) ∷ es) zero counter pos last s a (h, hs) m =
      absurd (omega arith)
  entries_loop-encoded ((key, value) ∷ es) (suc fuel) counter pos last s a (h, hs) m =
      let n = shared_at interval counter last key in
      let (nl, nk, agree) = shared_at_bounds interval counter last key in
      let rest = encoded interval (next_counter interval counter) key es in
      let pos' = pos + length (entry_bytes n key value) in
      let a' = At-advance buf pos (entry_bytes n key value) rest a in
      let longer : pos < pos' = omega (arith, length-entry_bytes n key value, length-varint n) in
      loop_step fuel pos pos' last key value s (omega arith)
        (read_entry-entry_bytes buf pos n last key value rest h nl nk agree a)
      ∙ entries_loop-encoded es fuel (next_counter interval counter) pos' key (f s key value) a' hs
          (omega arith)
