-- ===== src/Format/IndexBlock/Holds.antt =====
-- A finished index block as a container of its handles.
use compactor.Prelude.{
  ℕ, ◌+◌, ◌-◌, ◌*◌, ◌^◌, ◌==◌, ◌≤◌, ◌<◌, ◌≡◌, refl, sym, ap, Bool, true, false, Bytes, List, [],
  ◌∷◌, ◌++◌, Option, some, none, length, All, arith, ◌>>=◌, length-append, length-drop, drop,
  Option-cases, inl, inr, subst,
}
use compactor.Format.Error.{ok}
use compactor.Format.Varint.Encoding.{varint, length-varint}
use compactor.Format.BlockBuilder.Encoding.{shared_at, next_counter}
use compactor.Format.Block.{ParsedBlock, parse_block}
use compactor.Format.Block.Restarts.{parse_block-finish, length-finish}
use compactor.Format.Checksum.{BlockHandle}
use compactor.Format.IndexBlock.{
  IndexBlockBuilder, add_index_entry, finish_index, for_each_index_entry, size_delta,
}
use compactor.Format.IndexBlock.ZigZag.{zigzag}
use compactor.Format.IndexBlock.Encoding.{
  IndexEntry, IndexFits, Chained, index_encoded, index_entry_bytes, handle_bytes,
}
use compactor.Format.IndexBlock.Building.{add_index_all, add_index_all-Built, restarts_ahead-All}
use compactor.Format.IndexBlock.Walk.{fold_index}
use compactor.Format.IndexBlock.RoundTrip.{
  fresh, as_block, finish_index-finish, small_offsets, for_each_index_entry-finish,
}

pub record IndexHolds (raw : Bytes) (es : List IndexEntry) : Type 1 where
  pub block : ParsedBlock
  pub parses : parse_block raw ≡ ok block
  pub walks :
      (S : Type 0) (f : S → Bytes → BlockHandle → S) (s : S)
      → for_each_index_entry f block s ≡ (fold_index f s es, ok tt)

-- At most this many bytes for a handle, with its restart offset.
abbrev pub index_room : List IndexEntry → ℕ
index_room [] = 0
index_room ((key, h) ∷ es) = length key + 44 + index_room es

length-handle_bytes :
    (full : Bool) (prev : Option BlockHandle) (h : BlockHandle)
    → length (handle_bytes full prev h) ≤ 20
length-handle_bytes true prev h = omega (
  arith,
  length-append (varint h.offset) (varint h.size),
  length-varint h.offset,
  length-varint h.size,
)
length-handle_bytes false none h = omega arith
length-handle_bytes false (some prev) h = omega (arith, length-varint (zigzag (size_delta h prev)))

length-index_entry_bytes :
    (shared : ℕ) (prev : Option BlockHandle) (key : Bytes) (h : BlockHandle)
    → length (index_entry_bytes shared prev key h) ≤ length key + 40
length-index_entry_bytes shared prev key h =
    let hb = handle_bytes (shared == 0) prev h in
    omega (
      arith,
      length-append (varint shared) (varint (length key - shared) ++ (drop shared key ++ hb)),
      length-append (varint (length key - shared)) (drop shared key ++ hb),
      length-append (drop shared key) hb,
      length-drop shared key,
      length-varint shared,
      length-varint (length key - shared),
      length-handle_bytes (shared == 0) prev h,
    )

length-index_encoded :
    (interval counter : ℕ) (last : Bytes) (prev : Option BlockHandle) (es : List IndexEntry)
    → length (index_encoded interval counter last prev es) + length es * 4 ≤ index_room es
unfolding index_encoded
length-index_encoded interval counter last prev [] = omega arith
length-index_encoded interval counter last prev ((key, h) ∷ es) =
    let n = shared_at interval counter last key in
    let counter' = next_counter interval counter in
    omega (
      arith,
      length-index_encoded interval counter' key (some h) es,
      length-append (index_entry_bytes n prev key h)
          (index_encoded interval counter' key (some h) es),
      length-index_entry_bytes n prev key h,
    )

-- A builder that has taken the handles.
pub record IsIndexed (interval : ℕ) (es : List IndexEntry) (b : IndexBlockBuilder) : Type 1 where
  pub taken : add_index_all (fresh interval) es ≡ some b
  pub held : IndexHolds (finish_index b) es
  pub bounded : length (finish_index b) ≤ index_room es + 8

pub add_index_all-IsIndexed :
    (interval : ℕ) (es : List IndexEntry)
    → 1 ≤ interval
    → All IndexFits es
    → Chained none es
    → index_room es + 1 < 2 ^ 32
    → (b : IndexBlockBuilder) × IsIndexed interval es b
add_index_all-IsIndexed interval es h fits chained few =
    let len = length-index_encoded interval 0 [] none es in
    let (b, e, t) = add_index_all-Built es (fresh interval) fits refl (omega (arith, len)) in
    let (n, within) = restarts_ahead-All es interval 0 [] none 0 in
    let count : length b.restarts < 2 ^ 32 = omega (arith, ap length t.offsets, n, len) in
    let offsets : All (λ r. r < 2 ^ 32) b.restarts =
      subst (All (λ r. r < 2 ^ 32)) (sym t.offsets)
        (omega arith, small_offsets _ _ (omega (arith, len)) within) in
    let same = finish_index-finish b in
    (
      b,
      record {
        taken = e;
        held = record {
          block = record { contents = finish_index b; restarts = b.restarts };
          parses = rw same (parse_block-finish (as_block b) count offsets);
          walks = λ S f s. rw same (
              for_each_index_entry-finish f s (as_block b) interval es count t.content t.offsets
                fits chained);
        };
        bounded = omega (
          arith,
          ap length same,
          length-finish (as_block b) count,
          ap length t.content,
          ap length t.offsets,
          n,
          len,
        );
      },
    )

add_index_all-snoc :
    (b : IndexBlockBuilder) (es : List IndexEntry) (key : Bytes) (h : BlockHandle)
    → add_index_all b (es ++ (key, h) ∷ []) ≡ (do b' ← add_index_all b es; add_index_entry b' key h)
unfolding add_index_all
add_index_all-snoc b [] key h = elim (Option-cases (add_index_entry b key h)) [
  | inl e ↦ rw e refl
  | inr (b', e) ↦ rw e refl
]
add_index_all-snoc b ((k, v) ∷ es) key h = elim (Option-cases (add_index_entry b k v)) [
  | inl e ↦ rw e refl
  | inr (b', e) ↦ rw e (add_index_all-snoc b' es key h)
]

-- One handle more.
pub add_index_entry-IsIndexed :
    (interval : ℕ) (es : List IndexEntry) (b : IndexBlockBuilder) (key : Bytes) (h : BlockHandle)
    → IsIndexed interval es b
    → 1 ≤ interval
    → All IndexFits (es ++ (key, h) ∷ [])
    → Chained none (es ++ (key, h) ∷ [])
    → index_room (es ++ (key, h) ∷ []) + 1 < 2 ^ 32
    → (b' : IndexBlockBuilder) × (add_index_entry b key h ≡ some b')
      × IsIndexed interval (es ++ (key, h) ∷ []) b'
add_index_entry-IsIndexed interval es b key h t i fits chained few =
    let (b', t') = add_index_all-IsIndexed interval (es ++ (key, h) ∷ []) i fits chained few in
    let added : (do b'' ← add_index_all (fresh interval) es; add_index_entry b'' key h) ≡ some b' =
      cc (add_index_all-snoc (fresh interval) es key h, t'.taken) in
    (b', rw t.taken at added, t')
