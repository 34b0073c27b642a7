-- ===== src/Merge/Source/Arena.antt =====
-- What `ArenaSourceBuilder` leaves behind the pushes: the bytes of the entries and their spans.
use compactor.Prelude.{
  ℕ, zero, suc, ◌+◌, ◌-◌, ◌^◌, ◌<◌, ◌≡◌, refl, ap, Bytes, List, [], ◌∷◌, ◌++◌, append_assoc,
  append-nil, some, length, length-append, get_elem?, At, At-advance, slice-drop, arith, le→leb,
  length-drop,
}
use compactor.Prelude.Bits.{u32}
use compactor.Merge.Source.{
  KeyValue, EntrySpan, ArenaSource, byte_range, key, val, entry_of, ArenaSourceBuilder, new_builder,
  push, build,
}

-- A `push` for each entry, from a new builder.
unfoldable pub push_all : ArenaSourceBuilder → List KeyValue → ArenaSourceBuilder
push_all b [] = b
push_all b ((k, v) ∷ es) = push_all (push b k v) es

unfoldable pub arena_of : List KeyValue → ArenaSource
arena_of es = build (push_all new_builder es)

-- The bytes of the entries, one behind the other.
unfoldable pub bytes_of : List KeyValue → Bytes
bytes_of [] = []
bytes_of ((k, v) ∷ es) = k ++ (v ++ bytes_of es)

abbrev pub span_at : ℕ → Bytes → Bytes → EntrySpan
span_at off k v = record {
  key_off = off;
  key_len = length k;
  val_off = off + length k;
  val_len = length v;
}

-- The spans of entries whose bytes start at `off`.
unfoldable pub spans_of : ℕ → List KeyValue → List EntrySpan
spans_of off [] = []
spans_of off ((k, v) ∷ es) = span_at off k v ∷ spans_of (off + length k + length v) es

pub length-spans_of : (off : ℕ) (es : List KeyValue) → length (spans_of off es) ≡ length es
unfolding spans_of
length-spans_of off [] = refl
length-spans_of off ((k, v) ∷ es) = ap suc (length-spans_of (off + length k + length v) es)

push_fits :
    (b : ArenaSourceBuilder) (k v : Bytes)
    → length b.arena + length k + length v < 2 ^ 32
    → push b k v
      ≡ record { arena = b.arena ++ k ++ v; spans = b.spans ++ span_at (length b.arena) k v ∷ [] }
unfolding push
push_fits b k v h =
    let n = length-append b.arena k in
    let off : u32 (length b.arena) ≡ length b.arena = omega arith in
    let len : u32 (length k) ≡ length k = omega arith in
    let val_off : u32 (length (b.arena ++ k)) ≡ length b.arena + length k = omega (arith, n) in
    let val_len : u32 (length v) ≡ length v = omega arith in rw (off, len, val_off, val_len) refl

push_all_lem :
    (b : ArenaSourceBuilder) (es : List KeyValue)
    → length b.arena + length (bytes_of es) < 2 ^ 32
    → push_all b es
      ≡ record { arena = b.arena ++ bytes_of es; spans = b.spans ++ spans_of (length b.arena) es }
unfolding push_all bytes_of spans_of
push_all_lem b [] h = rw (append-nil b.arena, append-nil b.spans)
push_all_lem b ((k, v) ∷ es) h =
    let n = length-append k (v ++ bytes_of es) in
    let n' = length-append v (bytes_of es) in
    let h : length b.arena + length (k ++ (v ++ bytes_of es)) < 2 ^ 32 = h in
    let off : length (b.arena ++ k ++ v) ≡ length b.arena + length k + length v =
      omega (arith, length-append (b.arena ++ k) v, length-append b.arena k) in
    let b' : ArenaSourceBuilder = record {
      arena = b.arena ++ k ++ v;
      spans = b.spans ++ span_at (length b.arena) k v ∷ [];
    } in
    rw
      (
        push_fits b k v (omega (arith, n, n')),
        push_all_lem b' es (omega (arith, off, n, n')),
        off,
        append_assoc (b.arena ++ k) v (bytes_of es),
        append_assoc b.arena k (v ++ bytes_of es),
        append_assoc b.spans (span_at (length b.arena) k v ∷ [])
            (spans_of (length b.arena + length k + length v) es),
      )
      refl

module _ (s : ArenaSource) (small : length s.arena < 2 ^ 32) where
  pub byte_range-At :
      (p : ℕ) (xs rest : Bytes)
      → At s.arena p (xs ++ rest)
      → byte_range s.arena p (u32 (p + length xs)) ≡ some xs
  unfolding byte_range
  byte_range-At p xs rest (h, e) =
      let in_range : u32 (p + length xs) ≡ p + length xs =
        omega (arith, length-drop p s.arena, ap length e, length-append xs rest) in
      let n : p + length xs - p ≡ length xs = omega arith in
      rw (in_range, le→leb p (p + length xs) (omega arith), n) (slice-drop p s.arena xs rest e h)

  pub key-span_at :
      (off : ℕ) (k rest v : Bytes) → At s.arena off (k ++ rest) → key s (span_at off k v) ≡ some k
  unfolding key
  key-span_at off k rest v at = byte_range-At off k rest at

  pub At-next :
      (off : ℕ) (k v : Bytes) (es : List KeyValue)
      → At s.arena off (bytes_of ((k, v) ∷ es))
      → At s.arena (off + length k + length v) (bytes_of es)
  unfolding bytes_of
  At-next off k v es at =
      At-advance s.arena (off + length k) v (bytes_of es)
        (At-advance s.arena off k (v ++ bytes_of es) at)

  -- Where the bytes of the entries are ahead, their spans are read as the entries.
  pub entry_of-spans :
      (off : ℕ) (es : List KeyValue) (i : ℕ)
      → At s.arena off (bytes_of es)
      → entry_of s (get_elem? (spans_of off es) i) ≡ some (get_elem? es i)
  unfolding entry_of spans_of bytes_of key val
  entry_of-spans off [] i at = refl
  entry_of-spans off ((k, v) ∷ es) zero at =
      let at' = At-advance s.arena off k (v ++ bytes_of es) at in
      rw
        (
          byte_range-At off k (v ++ bytes_of es) at,
          byte_range-At (off + length k) v (bytes_of es) at',
        )
        refl
  entry_of-spans off ((k, v) ∷ es) (suc i) at =
      entry_of-spans (off + length k + length v) es i (At-next off k v es at)

pub arena_of-spans :
    (es : List KeyValue)
    → length (bytes_of es) < 2 ^ 32
    → arena_of es ≡ record {
      arena = bytes_of es;
      spans = spans_of 0 es;
      pos = 0;
      end_ = length (spans_of 0 es);
    }
unfolding arena_of build new_builder
arena_of-spans es small =
    ap build (push_all_lem (record { arena = []; spans = [] }) es (omega arith))
