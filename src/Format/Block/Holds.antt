-- ===== src/Format/Block/Holds.antt =====
-- A finished block as a container of its entries, for the files that are made of blocks.
use compactor.Prelude.{
  ℕ, ◌+◌, ◌-◌, ◌*◌, ◌^◌, ◌≤◌, ◌<◌, ◌≡◌, refl, ap, Bytes, List, [], ◌∷◌, ◌++◌, some, length, All,
  arith, ◌>>=◌, length-append, Option-cases, inl, inr,
}
use compactor.Format.Error.{ok}
use compactor.Format.Varint.Encoding.{length-varint}
use compactor.Format.BlockBuilder.{BlockBuilder, add, finish}
use compactor.Format.BlockBuilder.Encoding.{
  Entry, Fits, add_all, encoded, entry_bytes, length-entry_bytes, shared_at, next_counter,
}
use compactor.Format.BlockBuilder.Building.{add_all-Built}
use compactor.Format.Block.{ParsedBlock, parse_block, for_each_entry}
use compactor.Format.Block.Entries.{fold_entries}
use compactor.Format.Block.Restarts.{parse_block-finish, length-finish}
use compactor.Format.Block.RoundTrip.{fresh, for_each_entry-finish}

-- The bytes parse into a block, and every walk over it sees just these entries, and ends well.
pub record Holds (raw : Bytes) (es : List Entry) : Type 1 where
  pub block : ParsedBlock
  pub parses : parse_block raw ≡ ok block
  pub walks :
      (S : Type 0) (f : S → Bytes → Bytes → S) (s : S)
      → for_each_entry f block s ≡ (fold_entries f s es, ok tt)

-- At most this many bytes for an entry, with its restart offset.
abbrev pub room : List Entry → ℕ
room [] = 0
room ((key, value) ∷ es) = length key + length value + 34 + room es

length-encoded :
    (interval counter : ℕ) (last : Bytes) (es : List Entry)
    → length (encoded interval counter last es) + length es * 4 ≤ room es
unfolding encoded
length-encoded interval counter last [] = omega arith
length-encoded interval counter last ((key, value) ∷ es) =
    let n = shared_at interval counter last key in
    omega (
      arith,
      length-encoded interval (next_counter interval counter) key es,
      length-append (entry_bytes n key value)
          (encoded interval (next_counter interval counter) key es),
      length-entry_bytes n key value,
      length-varint n,
      length-varint (length key - n),
      length-varint (length value),
    )

encoded_some :
    (interval counter : ℕ) (last : Bytes) (e : Entry) (es : List Entry)
    → 1 ≤ length (encoded interval counter last (e ∷ es))
unfolding encoded
encoded_some interval counter last (key, value) es =
    let n = shared_at interval counter last key in
    omega (
      arith,
      length-append (entry_bytes n key value)
          (encoded interval (next_counter interval counter) key es),
      length-entry_bytes n key value,
      length-varint n,
    )

-- A builder that has taken the entries.
pub record IsFilled (interval : ℕ) (es : List Entry) (b : BlockBuilder) : Type 1 where
  pub taken : add_all (fresh interval) es ≡ some b
  pub content : b.buffer ≡ encoded interval 0 [] es
  pub held : Holds (finish b) es
  pub bounded : length (finish b) ≤ room es + 8

-- The builder takes the entries, and the finished block holds them.
pub add_all-IsFilled :
    (interval : ℕ) (es : List Entry)
    → 1 ≤ interval
    → All Fits es
    → length es + 1 < 2 ^ 32
    → (b : BlockBuilder) × IsFilled interval es b
add_all-IsFilled interval es h fits few =
    let (b, e, t) =
      add_all-Built es (fresh interval) h (record { open_ = refl; counted = omega arith }) fits in
    let n : length b.restarts < 2 ^ 32 = omega (arith, t.restart_count) in
    (
      b,
      record {
        taken = e;
        content = t.content;
        held = record {
          block = record { contents = finish b; restarts = b.restarts };
          parses = parse_block-finish b n (t.small (omega arith));
          walks = λ S f s. for_each_entry-finish f s b interval 0 es n t.content fits;
        };
        bounded = omega (
          arith,
          length-finish b n,
          t.restart_count,
          length-encoded interval 0 [] es,
          ap length t.content,
        );
      },
    )

pub IsFilled-length :
    (interval : ℕ) (e : Entry) (es : List Entry) (b : BlockBuilder)
    → IsFilled interval (e ∷ es) b
    → 1 ≤ length b.buffer
IsFilled-length interval e es b t =
    omega (arith, ap length t.content, encoded_some interval 0 [] e es)

add_all-snoc :
    (b : BlockBuilder) (es : List Entry) (key value : Bytes)
    → add_all b (es ++ (key, value) ∷ []) ≡ (do b' ← add_all b es; add b' key value)
unfolding add_all
add_all-snoc b [] key value = elim (Option-cases (add b key value)) [
  | inl e ↦ rw e refl
  | inr (b', e) ↦ rw e refl
]
add_all-snoc b ((k, v) ∷ es) key value = elim (Option-cases (add b k v)) [
  | inl e ↦ rw e refl
  | inr (b', e) ↦ rw e (add_all-snoc b' es key value)
]

-- One entry more.
pub add-IsFilled :
    (interval : ℕ) (es : List Entry) (b : BlockBuilder) (key value : Bytes)
    → IsFilled interval es b
    → 1 ≤ interval
    → All Fits (es ++ (key, value) ∷ [])
    → length es + 2 < 2 ^ 32
    → (b' : BlockBuilder) × (add b key value ≡ some b')
      × IsFilled interval (es ++ (key, value) ∷ []) b'
add-IsFilled interval es b key value t h fits few =
    let (b', t') =
      add_all-IsFilled interval (es ++ (key, value) ∷ []) h fits
        (omega (arith, length-append es ((key, value) ∷ []))) in
    let added : (do b'' ← add_all (fresh interval) es; add b'' key value) ≡ some b' =
      cc (add_all-snoc (fresh interval) es key value, t'.taken) in
    (b', rw t.taken at added, t')
