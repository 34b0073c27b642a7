-- ===== src/Format/Metaindex/RoundTrip.antt =====
-- A handle that was put into the metaindex block is found under its name.
use compactor.Prelude.{
  ◌+◌, ◌^◌, ◌<◌, ◌≡◌, ◌≢◌, refl, sym, ap, ◌∙◌, Bytes, List, [], ◌∷◌, ◌++◌, Option, none, some, map,
  length, All, arith, inl, inr, Bool-cases, length-append, append-nil, At, At-advance,
}
use compactor.Format.Error
use compactor.Format.Error.{Result, ok, Result-cases}
use compactor.Format.Varint.Encoding.{varint, length-varint, put_varint64-varint}
use compactor.Format.Varint.RoundTrip.{get_varint64-drop}
use compactor.Format.BlockBuilder.Encoding.{Fits}
use compactor.Format.Block.{ParsedBlock, parse_block, for_each_entry}
use compactor.Format.Block.Entries.{fold_entries}
use compactor.Format.Block.RoundTrip.{build, walk, walk-build}
use compactor.Format.Checksum.{BlockHandle}
use compactor.Format.Footer.{decode_block_handle}
use compactor.Format.Sorted.{sort_by_name, first_under, first_under-sort, sort_by_name-All}
use compactor.Format.Metaindex.{
  MetaEntry, meta_entry, build_metaindex_block, on_meta, find_meta_handle,
}
use compactor.Compaction.Loop.{bytes_eq}

abbrev pub MetaFits : MetaEntry → Type 0
MetaFits e = (length e.0 < 2 ^ 32) × (e.1.offset < 2 ^ 64) × (e.1.size < 2 ^ 64)

pub meta_entry-varint : (e : MetaEntry) → meta_entry e ≡ (e.0, varint e.1.offset ++ varint e.1.size)
unfolding meta_entry
meta_entry-varint (name, h) =
    ap (λ (v : Bytes). (name, v))
      (put_varint64-varint _ h.size
        ∙ ap (λ (v : Bytes). v ++ varint h.size) (put_varint64-varint [] h.offset))

pub meta_entry-Fits :
    (entries : List MetaEntry)
    → All MetaFits entries
    → All Fits (map meta_entry entries) × (length (map meta_entry entries) ≡ length entries)
meta_entry-Fits [] h = (tt, refl)
meta_entry-Fits (e ∷ entries) ((h, _, _), hs) =
    let (t, n) = meta_entry-Fits entries hs in
    let fits : Fits (meta_entry e) = rw (meta_entry-varint e) (
      h,
      omega (
        arith,
        length-append (varint e.1.offset) (varint e.1.size),
        length-varint e.1.offset,
        length-varint e.1.size,
      ),
    ) in
    ((fits, t), omega (arith, n))

pub decode_block_handle-varint :
    (h : BlockHandle)
    → h.offset < 2 ^ 64
    → h.size < 2 ^ 64
    → decode_block_handle (varint h.offset ++ varint h.size) 0
      ≡ some (h, 0 + length (varint h.offset) + length (varint h.size))
unfolding decode_block_handle
decode_block_handle-varint h ho hs =
    let buf = varint h.offset ++ varint h.size in
    let (_, ahead) : At buf (0 + length (varint h.offset)) (varint h.size) =
      At-advance buf 0 (varint h.offset) (varint h.size) (omega arith, refl) in
    rw
      (
        get_varint64-drop buf 0 h.offset (varint h.size) refl ho,
        get_varint64-drop buf (0 + length (varint h.offset)) h.size []
            (ahead ∙ sym (append-nil (varint h.size))) hs,
      )
      refl

fold_found :
    (entries : List MetaEntry) (name : Bytes) (h : BlockHandle)
    → fold_entries (on_meta name) (some h) (map meta_entry entries) ≡ some h
unfolding on_meta
fold_found [] name h = refl
fold_found (e ∷ entries) name h = fold_found entries name h

fold_entries-first_under :
    (entries : List MetaEntry) (name : Bytes)
    → All MetaFits entries
    → fold_entries (on_meta name) none (map meta_entry entries) ≡ first_under entries name
unfolding first_under on_meta
fold_entries-first_under [] name h = refl
fold_entries-first_under (e ∷ entries) name ((_, ho, hs), fs) =
    elim (Bool-cases (bytes_eq e.0 name)) [
      | inl t ↦
          rw (meta_entry-varint e, t, on_meta, decode_block_handle-varint e.1 ho hs)
            (fold_found entries name e.1)
      | inr t ↦ rw (meta_entry-varint e, t, on_meta) (fold_entries-first_under entries name fs)
    ]

walk_parses :
    (name bytes : Bytes) (r : Option BlockHandle × Result (Unit {0})) (x : Error.Error)
    → walk (on_meta name) none bytes ≡ ok r
    → parse_block bytes ≢ Error.err x
unfolding walk
walk_parses name bytes r x e p =
    let failed : Error.◌>>=◌ (parse_block bytes)
          (λ block. ok (for_each_entry (on_meta name) block none))
        ≡ Error.err x =
      rw p refl in
    cc (e, failed)

walk_found :
    (name bytes : Bytes) (block : ParsedBlock) (found : Option BlockHandle)
    → walk (on_meta name) none bytes ≡ ok (found, ok tt)
    → parse_block bytes ≡ ok block
    → find_meta_handle block name ≡ ok found
unfolding walk find_meta_handle
walk_found name bytes block found e p =
    let ends : for_each_entry (on_meta name) block none ≡ (found, ok tt) = cc (rw p at e) in
    rw ends refl

-- A metaindex block builds from names shorter than 2 ^ 32 and handles of u64, fewer than
-- 2 ^ 32 - 1 of them, in any order: no assertion fails. The block that is built parses, and under
-- every name `find_meta_handle` finds the first handle that was put in with it, or none.
pub find_meta_handle-build_metaindex_block :
    (entries : List MetaEntry)
    → All MetaFits entries
    → length entries + 1 < 2 ^ 32
    → (bytes : Bytes) × (block : ParsedBlock) × (build_metaindex_block entries ≡ some bytes)
      × (parse_block bytes ≡ ok block)
      × ((name : Bytes) → find_meta_handle block name ≡ ok (first_under entries name))
unfolding build_metaindex_block build
find_meta_handle-build_metaindex_block entries h few =
    let (hs, n) = sort_by_name-All MetaFits entries h in
    let (fits, n') = meta_entry-Fits (sort_by_name entries) hs in
    let walked = λ (name : Bytes).
      walk-build (on_meta name) none 1 (map meta_entry (sort_by_name entries)) (omega arith) fits
        (omega (arith, n, n')) in
    let (bytes, built, ran) = walked [] in
    elim (Result-cases (parse_block bytes)) [
      | inr (x, p) ↦ absurd (walk_parses [] bytes _ x ran p)
      | inl (block, p) ↦ (
        bytes,
        block,
        built,
        p,
        λ name.
            let (bytes', built', ran') = walked name in
            let same : bytes' ≡ bytes = cc in
            walk_found name bytes block _ (rw same at ran') p
            ∙ ap ok (
                fold_entries-first_under (sort_by_name entries) name hs
                ∙ first_under-sort entries name),
      )
    ]
