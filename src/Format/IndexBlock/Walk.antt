-- ===== src/Format/IndexBlock/Walk.antt =====
-- The walk over an index block, over bytes that a builder wrote.
use compactor.Prelude.{
  ℕ, zero, suc, ◌+◌, ◌≤◌, ◌<◌, ◌==◌, ◌≡◌, refl, sym, subst, ◌∙◌, ◌⊎◌, inl, inr, Bool, true, false,
  ◌||◌, Bytes, List, [], ◌∷◌, ◌++◌, Option, some, none, length, lt→ltb, le→ltb, leb, if◌then◌else◌,
  All, arith, append_assoc, At, At-advance, At-end, Bool-cases,
}
use compactor.Format.Error.{ok}
use compactor.Format.BlockBuilder.Encoding.{shared_at, shared_at_bounds, next_counter}
use compactor.Format.Checksum.{BlockHandle}
use compactor.Format.IndexBlock.{is_offset, read_index_entry, index_loop}
use compactor.Format.IndexBlock.Building.{restarts_ahead-All}
use compactor.Format.IndexBlock.Encoding.{
  IndexEntry, IndexFits, Chained, IsLinked, index_entry_bytes, index_encoded, restarts_ahead,
  index_entry_bytes_some, delta_linked,
}
use compactor.Format.IndexBlock.Reading.{read_index_entry-bytes}

-- Whether the position is a restart offset does not matter for what shares nothing.
is_offset-below :
    (rs ahead : List ℕ) (pos : ℕ)
    → All (λ r. r < pos) rs
    → is_offset (rs ++ ahead) pos ≡ is_offset ahead pos
unfolding is_offset
is_offset-below [] ahead pos h = refl
is_offset-below (r ∷ rs) ahead pos (h, hs) = ground (arith, is_offset-below rs ahead pos hs)

is_offset-above :
    (rs : List ℕ) (pos lo hi : ℕ)
    → pos < lo
    → All (λ r. (lo ≤ r) × (r ≤ hi)) rs
    → is_offset rs pos ≡ false
unfolding is_offset
is_offset-above [] pos lo hi h t = refl
is_offset-above (r ∷ rs) pos lo hi h ((t, _), ts) =
    ground (arith, is_offset-above rs pos lo hi h ts)

-- The restart offsets so far, where the reader stands at `pos` behind the key `last`.
abbrev pub Behind : ℕ → Bytes → List ℕ → Type 0
Behind pos last seen = All (λ r. r ≤ pos) seen × ((last ≡ []) ⊎ All (λ r. r < pos) seen)

All-below :
    (pos pos' : ℕ) (seen : List ℕ) → pos < pos' → All (λ r. r ≤ pos) seen → All (λ r. r < pos') seen
All-below pos pos' [] h t = tt
All-below pos pos' (r ∷ seen) h (t, ts) = (omega arith, All-below pos pos' seen h ts)

All-up_to : (pos : ℕ) (seen : List ℕ) → All (λ r. r < pos) seen → All (λ r. r ≤ pos) seen
All-up_to pos [] t = tt
All-up_to pos (r ∷ seen) (t, ts) = (omega arith, All-up_to pos seen ts)

-- The callback over a list of entries, first to last.
abbrev pub fold_index : {S : Type 0} → (S → Bytes → BlockHandle → S) → S → List IndexEntry → S
fold_index f s [] = s
fold_index f s ((key, h) ∷ es) = fold_index f (f s key h) es

or_same : (a b : Bool) → (b ≡ false → a ≡ false) → (a || b) ≡ b
or_same true true h = refl
or_same true false h = cc (h refl)
or_same false b h = refl

not_first :
    (b : Bool) (pos : ℕ) (rs : List ℕ)
    → b ≡ false
    → is_offset rs pos ≡ false
    → is_offset ((if b then pos ∷ [] else []) ++ rs) pos ≡ false
not_first true pos rs h t = cc
not_first false pos rs h t = t

shares_within :
    (interval counter : ℕ) (last key : Bytes)
    → (shared_at interval counter last key == 0) ≡ false
    → leb interval counter ≡ false
shares_within interval counter last key h = elim (Bool-cases (leb interval counter)) [
  | inl t ↦ absurd (cc (h, rest t))
  | inr t ↦ t
]
  where
    rest : leb interval counter ≡ true → (shared_at interval counter last key == 0) ≡ true
    rest t = rw t refl

-- A position that shares something is no restart offset.
full_read :
    (interval counter : ℕ) (last : Bytes) (prev : Option BlockHandle) (key : Bytes)
    (h : BlockHandle) (es : List IndexEntry) (pos : ℕ) (seen : List ℕ)
    → Behind pos last seen
    → (is_offset (seen ++ restarts_ahead interval counter last prev pos ((key, h) ∷ es)) pos
        || shared_at interval counter last key == 0)
      ≡ (shared_at interval counter last key == 0)
unfolding restarts_ahead
full_read interval counter last prev key h es pos seen (_, behind) = or_same _ _ (λ shares.
    elim behind [
      | inl empty ↦ absurd (cc (shares, delta_linked interval counter last key empty))
      | inr below ↦
          let bytes = index_entry_bytes (shared_at interval counter last key) prev key h in
          let some_bytes =
            index_entry_bytes_some (shared_at interval counter last key) prev key h in
          let within : leb interval counter ≡ false =
            shares_within interval counter last key shares in
          let (_, above) =
            restarts_ahead-All es interval (next_counter interval counter) key (some h)
              (pos + length bytes) in
          is_offset-below seen _ pos below
          ∙ not_first (leb interval counter) pos _ within
              (is_offset-above _ pos (pos + length bytes) _ (omega arith) above)
    ])

still_behind :
    (b : Bool) (pos pos' : ℕ) (key : Bytes) (seen : List ℕ)
    → pos < pos'
    → All (λ r. r ≤ pos) seen
    → All (λ r. r < pos') (seen ++ (if b then pos ∷ [] else []))
still_behind true pos pos' key [] h t = (h, tt)
still_behind false pos pos' key [] h t = tt
still_behind b pos pos' key (r ∷ seen) h (t, ts) =
    (omega arith, still_behind b pos pos' key seen h ts)

module _ {S : Type 0} (f : S → Bytes → BlockHandle → S) (interval : ℕ) (buf : Bytes) where
  index_done :
      (fuel pos : ℕ) (offsets : List ℕ) (last : Bytes) (prev : Option BlockHandle) (s : S)
      → At buf pos []
      → 0 < fuel
      → index_loop f fuel buf offsets pos last prev s ≡ (s, ok tt)
  unfolding index_loop
  index_done zero pos offsets last prev s a h = absurd (omega arith)
  index_done (suc fuel) pos offsets last prev s a h =
      rw (le→ltb pos (length buf) (omega (arith, At-end buf pos a)), index_loop)

  index_step :
      (fuel pos pos' : ℕ) (offsets : List ℕ) (last key : Bytes) (prev : Option BlockHandle)
      (h : BlockHandle) (s : S)
      → pos < length buf
      → read_index_entry buf offsets pos last prev ≡ ok (key, h, pos')
      → index_loop f (suc fuel) buf offsets pos last prev s
        ≡ index_loop f fuel buf offsets pos' key (some h) (f s key h)
  unfolding index_loop
  index_step fuel pos pos' offsets last key prev h s m e =
      rw (lt→ltb pos (length buf) m, e, index_loop)

  -- Standing before the bytes of some entries, with fuel for all that is ahead, the loop calls the
  -- callback on each of them in turn and ends well.
  pub index_loop-encoded :
      (es : List IndexEntry) (fuel counter pos : ℕ) (last : Bytes) (prev : Option BlockHandle)
      (seen offsets : List ℕ) (s : S)
      → At buf pos (index_encoded interval counter last prev es)
      → offsets ≡ seen ++ restarts_ahead interval counter last prev pos es
      → Behind pos last seen
      → All IndexFits es
      → IsLinked last prev
      → Chained prev es
      → length buf < fuel + pos
      → index_loop f fuel buf offsets pos last prev s ≡ (fold_index f s es, ok tt)
  unfolding index_encoded restarts_ahead
  index_loop-encoded [] fuel counter pos last prev seen offsets s a o b h l c m =
      index_done fuel pos offsets last prev s a (omega (arith, At-end buf pos a))
  index_loop-encoded ((key, h) ∷ es) zero counter pos last prev seen offsets s a o b fits l c m =
      absurd (omega arith)
  index_loop-encoded ((key, h) ∷ es) (suc fuel) counter pos last prev seen offsets s a o b
        (fit, fits) l (c, cs) m =
      let n = shared_at interval counter last key in
      let (nl, nk, agree) = shared_at_bounds interval counter last key in
      let rest = index_encoded interval (next_counter interval counter) key (some h) es in
      let bytes = index_entry_bytes n prev key h in
      let pos' = pos + length bytes in
      let a' = At-advance buf pos bytes rest a in
      let some_bytes = index_entry_bytes_some n prev key h in
      let full = full_read interval counter last prev key h es pos seen b in
      let linked : prev ≡ none → (n == 0) ≡ true =
        λ e. delta_linked interval counter last key (subst (IsLinked last) e l) in
      let seen' = seen ++ (if leb interval counter then pos ∷ [] else []) in
      let below = still_behind (leb interval counter) pos pos' key seen (omega arith) b.0 in
      index_step fuel pos pos' offsets last key prev h s (omega arith) (
        read_index_entry-bytes buf offsets pos n last prev key h rest fit l c nl nk agree
          (subst (λ os. (is_offset os pos || n == 0) ≡ (n == 0)) (sym o) full) linked a)
      ∙ index_loop-encoded es fuel (next_counter interval counter) pos' key (some h) seen' offsets
          (f s key h) a'
          (o ∙ sym (append_assoc seen (if leb interval counter then pos ∷ [] else []) _))
          (All-up_to pos' seen' below, inr below) fits fit.2 cs (omega arith)
