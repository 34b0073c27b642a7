-- ===== src/Format/IndexBlock/Encoding.antt =====
-- The bytes that `IndexBlockBuilder` writes for its entries, and its restart offsets.
use compactor.Prelude.{
  ℕ, ◌+◌, ◌-◌, ◌^◌, ◌≤◌, ◌<◌, ◌==◌, ◌≡◌, refl, ap, subst, Bool, true, false, ◌||◌, Bytes, List, [],
  ◌∷◌, ◌++◌, drop, length, leb, if◌then◌else◌, Option, some, none, arith, append_assoc,
  length-append, Bool-cases, inl, inr,
}
use compactor.Prelude.Bits.{u32}
use compactor.Format.Varint.Encoding.{
  varint, length-varint, put_varint32-varint, put_varint64-varint,
}
use compactor.Format.BlockBuilder.{shared_prefix_len}
use compactor.Format.BlockBuilder.Encoding.{shared_at, shared_at_bounds, next_counter}
use compactor.Format.Checksum.{BlockHandle}
use compactor.Format.Trailer.{block_trailer_size}
use compactor.Format.IndexBlock.{
  IndexBlockBuilder, put_index_key, put_handle, add_index_entry, size_delta,
}
use compactor.Format.IndexBlock.ZigZag.{zigzag, put_varsigned64-varint}

abbrev pub IndexEntry : Type 0
IndexEntry = Bytes × BlockHandle

abbrev pub IndexFits : IndexEntry → Type 0
IndexFits e = (length e.0 < 2 ^ 32) × (e.1.offset < 2 ^ 64) × (e.1.size < 2 ^ 64)

-- A block stands behind the previous one and its trailer.
abbrev pub Follows : Option BlockHandle → BlockHandle → Type 0
Follows none h = Unit
Follows (some prev) h = h.offset ≡ prev.offset + prev.size + block_trailer_size

abbrev pub Chained : Option BlockHandle → List IndexEntry → Type 0
Chained prev [] = Unit
Chained prev ((key, h) ∷ es) = Follows prev h × Chained (some h) es

-- Without a previous handle there is no previous key to share with.
abbrev pub IsLinked : Bytes → Option BlockHandle → Type 0
IsLinked last none = last ≡ []
IsLinked last (some prev) = prev.size < 2 ^ 64

abbrev pub handle_bytes : Bool → Option BlockHandle → BlockHandle → Bytes
handle_bytes true prev h = varint h.offset ++ varint h.size
handle_bytes false none h = []
handle_bytes false (some prev) h = varint (zigzag (size_delta h prev))

abbrev pub index_entry_bytes : ℕ → Option BlockHandle → Bytes → BlockHandle → Bytes
index_entry_bytes shared prev key h =
    varint shared
    ++ (varint (length key - shared) ++ (drop shared key ++ handle_bytes (shared == 0) prev h))

unfoldable pub index_encoded : ℕ → ℕ → Bytes → Option BlockHandle → List IndexEntry → Bytes
index_encoded interval counter last prev [] = []
index_encoded interval counter last prev ((key, h) ∷ es) =
    index_entry_bytes (shared_at interval counter last key) prev key h
    ++ index_encoded interval (next_counter interval counter) key (some h) es

-- The restart offsets of the entries, the first of which is written at `pos`.
unfoldable pub restarts_ahead : ℕ → ℕ → Bytes → Option BlockHandle → ℕ → List IndexEntry → List ℕ
restarts_ahead interval counter last prev pos [] = []
restarts_ahead interval counter last prev pos ((key, h) ∷ es) =
    (if leb interval counter then pos ∷ [] else [])
    ++ restarts_ahead interval (next_counter interval counter) key (some h)
        (pos + length (index_entry_bytes (shared_at interval counter last key) prev key h)) es

pub index_entry_bytes_some :
    (shared : ℕ) (prev : Option BlockHandle) (key : Bytes) (h : BlockHandle)
    → 1 ≤ length (index_entry_bytes shared prev key h)
index_entry_bytes_some shared prev key h = omega (
  arith,
  length-append (varint shared)
      (varint (length key - shared) ++ (drop shared key ++ handle_bytes (shared == 0) prev h)),
  length-varint shared,
)

-- A restart shares nothing.
pub full_at :
    (interval counter : ℕ) (last key : Bytes)
    → let n = shared_at interval counter last key in (leb interval counter || n == 0) ≡ (n == 0)
full_at interval counter last key = elim (Bool-cases (leb interval counter)) [
  | inl t ↦ rw t refl
  | inr t ↦ rw t refl
]

-- What shares something has a previous handle.
pub delta_linked :
    (interval counter : ℕ) (last key : Bytes)
    → IsLinked last none
    → (shared_at interval counter last key == 0) ≡ true
unfolding shared_prefix_len
delta_linked interval counter last key e = rw e (ground arith)

put_handle-handle_bytes :
    (buffer : Bytes) (full : Bool) (prev : Option BlockHandle) (h : BlockHandle)
    → (prev ≡ none → full ≡ true)
    → put_handle buffer full prev h ≡ some (buffer ++ handle_bytes full prev h)
unfolding put_handle
put_handle-handle_bytes buffer true prev h l = simp (put_varint64-varint, append_assoc)
put_handle-handle_bytes buffer false none h l = absurd (cc (l refl))
put_handle-handle_bytes buffer false (some prev) h l =
    ap some (put_varsigned64-varint buffer (size_delta h prev) (omega arith))

put_index_key-varint :
    (buffer : Bytes) (shared : ℕ) (key : Bytes)
    → shared ≤ length key
    → length key < 2 ^ 32
    → put_index_key buffer shared key
      ≡ buffer ++ (varint shared ++ (varint (length key - shared) ++ drop shared key))
unfolding put_index_key
put_index_key-varint buffer shared key hs hk =
    let small : (n : ℕ) → n < 2 ^ 32 → u32 n ≡ n = λ n h. omega arith in
    rw (small shared (omega arith), small (length key - shared) (omega arith))
      (simp (put_varint32-varint, append_assoc))

-- What an entry makes of a builder.
unfoldable pub index_added : IndexBlockBuilder → Bytes → BlockHandle → IndexBlockBuilder
index_added b key h = record b {
  restarts =
      if leb b.restart_interval b.counter
      then b.restarts ++ u32 (length b.buffer) ∷ []
      else b.restarts;
  buffer =
      b.buffer
      ++ index_entry_bytes (shared_at b.restart_interval b.counter b.last_key key) b.last_handle key
          h;
  last_key = key;
  last_handle = some h;
  counter = next_counter b.restart_interval b.counter;
}

pub add_index_entry-added :
    (b : IndexBlockBuilder) (key : Bytes) (h : BlockHandle)
    → length key < 2 ^ 32
    → IsLinked b.last_key b.last_handle
    → add_index_entry b key h ≡ some (index_added b key h)
unfolding add_index_entry index_added
add_index_entry-added b key h hk linked =
    let n = shared_at b.restart_interval b.counter b.last_key key in
    let (_, nk, _) = shared_at_bounds b.restart_interval b.counter b.last_key key in
    let linked' : b.last_handle ≡ none → (n == 0) ≡ true = λ e.
      delta_linked b.restart_interval b.counter b.last_key key
        (subst (IsLinked b.last_key) e linked) in
    rw
      (
        full_at b.restart_interval b.counter b.last_key key,
        put_index_key-varint b.buffer n key nk hk,
        put_handle-handle_bytes (b.buffer ++ (varint n ++ (varint (length key - n) ++ drop n key)))
            (n == 0) b.last_handle h linked',
      )
      (ap (λ (buffer : Bytes). some (record (index_added b key h) { buffer = buffer }))
        (simp append_assoc))
