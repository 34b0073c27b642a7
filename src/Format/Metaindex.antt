-- ===== src/Format/Metaindex.antt =====
-- The metaindex block: `build_metaindex_block` of crates/compactor/src/format/properties.rs and
-- `find_meta_handle` of compaction/mod.rs. A name is its bytes. `none` is a failed assertion.
pub mod RoundTrip
use compactor.Prelude.{ℕ, Bytes, List, [], ◌∷◌, Option, none, some, ◌>>=◌, map, if◌then◌else◌}
use compactor.Format.Error
use compactor.Format.Error.{Result, ok}
use compactor.Format.Varint.{put_varint64}
use compactor.Format.BlockBuilder.{new, finish}
use compactor.Format.BlockBuilder.Encoding.{add_all}
use compactor.Format.Block.{ParsedBlock, for_each_entry}
use compactor.Format.Checksum.{BlockHandle}
use compactor.Format.Footer.{decode_block_handle}
use compactor.Format.Sorted.{sort_by_name}
use compactor.Compaction.Loop.{bytes_eq}

abbrev pub MetaEntry : Type 0
MetaEntry = Bytes × BlockHandle

-- What is added to the builder for an entry.
unfoldable pub meta_entry : MetaEntry → Bytes × Bytes
meta_entry (name, handle) = (name, put_varint64 (put_varint64 [] handle.offset) handle.size)

unfoldable pub build_metaindex_block : List MetaEntry → Option Bytes
build_metaindex_block entries = do
  b ← new 1
  b' ← add_all b (map meta_entry (sort_by_name entries))
  some (finish b')

-- The closure of `find_meta_handle`; both varints are read by `decode_block_handle`.
unfoldable pub on_meta : Bytes → Option BlockHandle → Bytes → Bytes → Option BlockHandle
on_meta name (some found) key value = some found
on_meta name none key value =
    if bytes_eq key name then (do (handle, _) ← decode_block_handle value 0; some handle) else none

unfoldable pub find_meta_handle : ParsedBlock → Bytes → Result (Option BlockHandle)
find_meta_handle metaindex name =
    let (found, ended) = for_each_entry (on_meta name) metaindex none in
    Error.◌>>=◌ ended (λ _. ok found)
