-- ===== src/Format/SstBuilder/Meta.antt =====
-- The metaindex block of a file that is built: its two names, and how long it can be.
use compactor.Prelude.{
  ◌≤◌, ◌≡◌, refl, ap, ◌∙◌, Bytes, List, [], ◌∷◌, some, length, length-append, map, arith, All,
  subst,
}
use compactor.Format.Varint.Encoding.{length-varint, varint}
use compactor.Compaction.Loop.{bytes_eq}
use compactor.Format.Error.{ok}
use compactor.Format.Block.Holds.{Holds, add_all-IsFilled}
use compactor.Format.Block.RoundTrip.{new-fresh}
use compactor.Format.BlockBuilder.{finish}
use compactor.Format.Checksum.{BlockHandle}
use compactor.Format.Metaindex.{MetaEntry, meta_entry, build_metaindex_block, find_meta_handle}
use compactor.Format.Metaindex.RoundTrip.{
  MetaFits, meta_entry-varint, meta_entry-Fits, find_meta_handle-build_metaindex_block,
}
use compactor.Format.Properties.{properties_block_name, index_block_name}
use compactor.Format.Sorted.{first_under, sort_by_name, insert_by_name}
use compactor.Merge.Cmp.{compare_bytes}

abbrev pub two_names : BlockHandle → BlockHandle → List MetaEntry
two_names props index = (properties_block_name, props) ∷ (index_block_name, index) ∷ []

swapped :
    (props index : BlockHandle)
    → sort_by_name (two_names props index)
      ≡ (index_block_name, index) ∷ (properties_block_name, props) ∷ []
unfolding sort_by_name insert_by_name compare_bytes
swapped props index = refl

length-meta_entry : (e : MetaEntry) → length (meta_entry e).1 ≤ 20
length-meta_entry (name, h) = rw (meta_entry-varint (name, h)) (
    omega (
      arith,
      length-append (varint h.offset) (varint h.size),
      length-varint h.offset,
      length-varint h.size,
    ))

-- The two entries in the order of the block.
abbrev pub two_entries : BlockHandle → BlockHandle → List (Bytes × Bytes)
two_entries props index =
    map meta_entry ((index_block_name, index) ∷ (properties_block_name, props) ∷ [])

two_names-Holds :
    (props index : BlockHandle) (raw : Bytes)
    → All MetaFits (two_names props index)
    → build_metaindex_block (two_names props index) ≡ some raw
    → Holds raw (two_entries props index) × (length raw ≤ 500)
unfolding build_metaindex_block
two_names-Holds props index raw (p, (i, _)) built =
    let es : List MetaEntry = (index_block_name, index) ∷ (properties_block_name, props) ∷ [] in
    let (small, _) = meta_entry-Fits es (i, (p, tt)) in
    let (b, t) = add_all-IsFilled 1 (map meta_entry es) (omega arith) small (omega arith) in
    let same : some (finish b) ≡ some raw =
      rw (swapped props index, new-fresh 1 (omega arith), t.taken) at built in
    let ended : finish b ≡ raw = cc in
    (
      subst (λ x. Holds x (two_entries props index)) ended t.held,
      omega (
        arith,
        ap length ended,
        t.bounded,
        ap (λ (e : Bytes × Bytes). length e.0) (meta_entry-varint (index_block_name, index)),
        ap (λ (e : Bytes × Bytes). length e.0) (meta_entry-varint (properties_block_name, props)),
        length-meta_entry (index_block_name, index),
        length-meta_entry (properties_block_name, props),
      ),
    )

finds_index :
    (props index : BlockHandle) → first_under (two_names props index) index_block_name ≡ some index
unfolding first_under bytes_eq
finds_index props index = refl

pub build_metaindex_block-two_names :
    (props index : BlockHandle)
    → All MetaFits (two_names props index)
    → (raw : Bytes) × (held : Holds raw (two_entries props index)) × (build_metaindex_block
          (two_names props index)
        ≡ some raw)
      × (find_meta_handle held.block index_block_name ≡ ok (some index))
      × (length raw ≤ 500)
build_metaindex_block-two_names props index fits =
    let (raw, block, built, parses, found) =
      find_meta_handle-build_metaindex_block (two_names props index) fits (omega arith) in
    let (held, short) = two_names-Holds props index raw fits built in
    let made : ok block ≡ ok held.block = cc (parses, held.parses) in
    let same : block ≡ held.block = cc in
    (raw, held, built, rw same at (found index_block_name) ∙ ap ok (finds_index props index), short)
