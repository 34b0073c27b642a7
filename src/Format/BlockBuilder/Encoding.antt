-- ===== src/Format/BlockBuilder/Encoding.antt =====
-- The bytes that `BlockBuilder` writes for its entries, in plain terms.
use compactor.Prelude.{
  ℕ, ◌+◌, ◌-◌, ◌^◌, ◌≤◌, ◌<◌, ◌≡◌, refl, ap, ◌∙◌, Bool, true, false, Bytes, List, [], ◌∷◌, ◌++◌,
  take, drop, length, leb, if◌then◌else◌, Option, some, none, ◌>>=◌, arith, append_assoc,
  length-drop, le→leb, Bool-cases, inl, inr, ==_iff, ap₂, length-append, ◌==◌,
}
use compactor.Prelude.Bits.{u32}
use compactor.Format.Varint.Encoding.{varint, put_varint32-varint}
use compactor.Format.BlockBuilder.{BlockBuilder, shared_prefix_len, put_entry, add}

abbrev pub Entry : Type 0
Entry = Bytes × Bytes

-- The lengths that a header can hold.
abbrev pub Fits : Entry → Type 0
Fits e = (length e.0 < 2 ^ 32) × (length e.1 < 2 ^ 32)

abbrev pub entry_bytes : ℕ → Bytes → Bytes → Bytes
entry_bytes shared key value =
    varint shared
    ++ (varint (length key - shared) ++ (varint (length value) ++ (drop shared key ++ value)))

pub length-entry_bytes :
    (shared : ℕ) (key value : Bytes)
    → length (entry_bytes shared key value)
      ≡ length (varint shared)
        + length (varint (length key - shared))
        + length (varint (length value))
        + (length key - shared)
        + length value
length-entry_bytes shared key value =
    rw (length-append, length-append, length-append, length-append, length-drop) (omega arith)

-- What an entry shares with the last key, and the entries in this counter and their restart.
abbrev pub shared_at : ℕ → ℕ → Bytes → Bytes → ℕ
shared_at interval counter last key = if leb interval counter then 0 else shared_prefix_len last key

abbrev pub next_counter : ℕ → ℕ → ℕ
next_counter interval counter = (if leb interval counter then 0 else counter) + 1

unfoldable pub encoded : ℕ → ℕ → Bytes → List Entry → Bytes
encoded interval counter last [] = []
encoded interval counter last ((key, value) ∷ es) =
    entry_bytes (shared_at interval counter last key) key value
    ++ encoded interval (next_counter interval counter) key es

pub shared_prefix_len_bounds :
    (a b : Bytes)
    → (shared_prefix_len a b ≤ length a)
      × (shared_prefix_len a b ≤ length b)
      × (take (shared_prefix_len a b) a ≡ take (shared_prefix_len a b) b)
unfolding shared_prefix_len
shared_prefix_len_bounds [] b = (omega arith, omega arith, refl)
shared_prefix_len_bounds (x ∷ a) [] = (omega arith, omega arith, refl)
shared_prefix_len_bounds (x ∷ a) (y ∷ b) = elim (Bool-cases (x == y)) [
  | inl same ↦
      let (ha, hb, e) = shared_prefix_len_bounds a b in
      rw same (omega arith, omega arith, ap₂ ◌∷◌ ((==_iff x y).0 same) e)
  | inr other ↦ rw other (omega arith, omega arith, refl)
]

pub shared_at_bounds :
    (interval counter : ℕ) (last key : Bytes)
    → let n = shared_at interval counter last key in
      (n ≤ length last) × (n ≤ length key) × (take n last ≡ take n key)
shared_at_bounds interval counter last key = elim (Bool-cases (leb interval counter)) [
  | inl restart ↦ rw restart (omega arith, omega arith, refl)
  | inr within ↦ rw within (shared_prefix_len_bounds last key)
]

put_entry-entry_bytes :
    (buffer : Bytes) (shared : ℕ) (key value : Bytes)
    → Fits (key, value)
    → shared ≤ length key
    → put_entry buffer shared key value ≡ buffer ++ entry_bytes shared key value
unfolding put_entry
put_entry-entry_bytes buffer shared key value (hk, hv) hs =
    let small : (n : ℕ) → n < 2 ^ 32 → u32 n ≡ n = λ n h. omega arith in
    rw
      (
        small shared (omega arith),
        small (length key - shared) (omega arith),
        small (length value) hv,
      )
      (simp (put_varint32-varint, append_assoc))

-- The entries that a caller adds one after the other.
unfoldable pub add_all : BlockBuilder → List Entry → Option BlockBuilder
add_all b [] = some b
add_all b ((key, value) ∷ es) = do b' ← add b key value; add_all b' es

-- A builder that can take an entry, with restart offsets that its trailer can hold.
pub record IsReady (b : BlockBuilder) : Type 0 where
  pub open_ : b.finished ≡ false
  pub counted : b.counter ≤ b.restart_interval

-- What `add` makes of a ready builder.
unfoldable pub added : BlockBuilder → Bytes → Bytes → BlockBuilder
added b key value = record b {
  restarts =
      if leb b.restart_interval b.counter
      then b.restarts ++ u32 (length b.buffer) ∷ []
      else b.restarts;
  buffer =
      b.buffer ++ entry_bytes (shared_at b.restart_interval b.counter b.last_key key) key value;
  last_key = key;
  counter = next_counter b.restart_interval b.counter;
}

pub add-added :
    (b : BlockBuilder) (key value : Bytes)
    → IsReady b
    → Fits (key, value)
    → add b key value ≡ some (added b key value)
unfolding add added
add-added b key value r f =
    let n = shared_at b.restart_interval b.counter b.last_key key in
    let written =
      put_entry-entry_bytes b.buffer n key value f
        (shared_at_bounds b.restart_interval b.counter b.last_key key).1 in
    accept (b.finished) (leb b.counter b.restart_interval) r.open_ (le→leb _ _ r.counted)
    ∙ ap (λ (buffer : Bytes). some (record (added b key value) { buffer = buffer })) written
  where
    accept :
        {A : Type 0} {x : A} (closed counted : Bool)
        → closed ≡ false
        → counted ≡ true
        → (if closed then none else if counted then some x else none) ≡ some x
    accept closed counted e h = rw (e, h)

pub added-IsReady :
    (b : BlockBuilder) (key value : Bytes)
    → 1 ≤ b.restart_interval
    → IsReady b
    → IsReady (added b key value)
unfolding added
added-IsReady b key value h r = record { open_ = r.open_; counted = ground arith }
