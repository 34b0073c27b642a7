-- ===== src/Format/SstBuilder/Written.antt =====
-- The file while it is built: its data blocks, and the index of them.
use compactor.Prelude.{
  ℕ, ◌+◌, ◌*◌, ◌^◌, ◌==◌, ◌≤◌, ◌<◌, ◌≡◌, refl, false, Bytes, List, [], ◌∷◌, ◌++◌, Option, some,
  none, length, All, arith,
}
use compactor.Prelude.Bits.{u64}
use compactor.Format.BlockBuilder.{BlockBuilder, finish, is_empty}
use compactor.Format.BlockBuilder.Encoding.{Fits}
use compactor.Format.Block.Holds.{IsFilled, IsFilled-length, room}
use compactor.Format.Checksum.{BlockHandle, Hashes}
use compactor.Format.IndexBlock.{IndexBlockBuilder}
use compactor.Format.IndexBlock.Encoding.{IndexEntry, IndexFits, Follows, Chained}
use compactor.Format.IndexBlock.Holds.{IsIndexed, index_room, add_index_entry-IsIndexed}
use compactor.Format.SstBuilder.Build.{SstBuilderOptions, append_block, flush_data_block}
use compactor.Format.SstBuilder.Stored.{
  AllStored, AllStored-append, AllStored-snoc, append_block-IsStored, append_block-handle,
  length-append_block, with_trailer,
}
use compactor.Merge.Source.{KeyValue}

-- The bytes that an entry can take in a file, in its block and in the index.
abbrev pub weight : List KeyValue → ℕ
weight [] = 0
weight ((key, value) ∷ es) = length key * 2 + length value + 100 + weight es

pub weight-append : (xs ys : List KeyValue) → weight (xs ++ ys) ≡ weight xs + weight ys
weight-append [] ys = omega arith
weight-append ((k, v) ∷ xs) ys = omega (arith, weight-append xs ys)

pub weight-Fits :
    (es : List KeyValue) → weight es < 2 ^ 31 → All Fits es × (length es * 100 ≤ weight es)
weight-Fits [] h = (tt, omega arith)
weight-Fits ((k, v) ∷ es) h =
    let (fits, n) = weight-Fits es (omega arith) in
    (((omega arith, omega arith), fits), omega arith)

-- A block with its entry in the index.
pub room-weight :
    (es : List KeyValue) (key value : Bytes)
    → room (es ++ (key, value) ∷ []) + length key + 66 ≤ weight (es ++ (key, value) ∷ [])
room-weight [] key value = omega arith
room-weight ((k, v) ∷ es) key value = omega (arith, room-weight es key value)

-- The handle that the next one follows.
abbrev pub last_of : Option BlockHandle → List IndexEntry → Option BlockHandle
last_of prev [] = prev
last_of prev ((key, h) ∷ hs) = last_of (some h) hs

Chained-snoc :
    (prev : Option BlockHandle) (hs : List IndexEntry) (key : Bytes) (h : BlockHandle)
    → Chained prev hs
    → Follows (last_of prev hs) h
    → Chained prev (hs ++ (key, h) ∷ [])
Chained-snoc prev [] key h c fol = (fol, tt)
Chained-snoc prev ((k, h') ∷ hs) key h (c, cs) fol = (c, Chained-snoc (some h') hs key h cs fol)

last_of-snoc :
    (prev : Option BlockHandle) (hs : List IndexEntry) (key : Bytes) (h : BlockHandle)
    → last_of prev (hs ++ (key, h) ∷ []) ≡ some h
last_of-snoc prev [] key h = refl
last_of-snoc prev ((k, h') ∷ hs) key h = last_of-snoc (some h') hs key h

index_room-snoc :
    (hs : List IndexEntry) (key : Bytes) (h : BlockHandle)
    → index_room (hs ++ (key, h) ∷ []) ≡ index_room hs + length key + 44
index_room-snoc [] key h = omega arith
index_room-snoc ((k, h') ∷ hs) key h = omega (arith, index_room-snoc hs key h)

IndexFits-snoc :
    (hs : List IndexEntry) (e : IndexEntry)
    → All IndexFits hs
    → IndexFits e
    → All IndexFits (hs ++ e ∷ [])
IndexFits-snoc [] e t f = (f, tt)
IndexFits-snoc (h ∷ hs) e (t, ts) f = (t, IndexFits-snoc hs e ts f)

has_bytes :
    (interval : ℕ) (es : List KeyValue) (e : KeyValue) (b : BlockBuilder)
    → IsFilled interval (es ++ e ∷ []) b
    → (length b.buffer == 0) ≡ false
has_bytes interval [] e b t = let n = IsFilled-length interval e [] b t in ground arith
has_bytes interval (e' ∷ es) e b t =
    let n = IsFilled-length interval e' (es ++ e ∷ []) b t in ground arith

-- Where the file ends, the next block follows.
abbrev pub EndsAt : Option BlockHandle → ℕ → Type 0
EndsAt none n = Unit
EndsAt (some prev) n = n ≡ prev.offset + prev.size + 5

EndsAt-Follows :
    (prev : Option BlockHandle) (h : BlockHandle) → EndsAt prev h.offset → Follows prev h
EndsAt-Follows none h t = tt
EndsAt-Follows (some prev) h t = t

module _ (hashes : Hashes) (opts : SstBuilderOptions) where
  pub record IsWritten (file : Bytes) (b : IndexBlockBuilder) (hs : List IndexEntry)
      (ess : List (List KeyValue)) : Type 1 where
    pub stored : AllStored hashes opts file hs ess
    pub indexed : IsIndexed 1 hs b
    pub fits : All IndexFits hs
    pub chained : Chained none hs
    pub ends : EndsAt (last_of none hs) (length file)

  -- A block with some entries is flushed into the file and the index.
  pub flush_data_block-IsWritten :
      (file : Bytes) (b : IndexBlockBuilder) (hs : List IndexEntry) (ess : List (List KeyValue))
      (bb : BlockBuilder) (es : List KeyValue) (key value : Bytes)
      → IsWritten file b hs ess
      → IsFilled 16 (es ++ (key, value) ∷ []) bb
      → length file + index_room hs + weight (es ++ (key, value) ∷ []) < 2 ^ 31
      → (file' : Bytes) × (b' : IndexBlockBuilder) × (h : BlockHandle) × (flush_data_block hashes
            opts file b bb key
          ≡ some (file', b'))
        × IsWritten file' b' (hs ++ (key, h) ∷ []) (ess ++ (es ++ (key, value) ∷ []) ∷ [])
        × (length file' + index_room (hs ++ (key, h) ∷ [])
            ≤ length file + index_room hs + weight (es ++ (key, value) ∷ []))
  unfolding flush_data_block is_empty append_block
  flush_data_block-IsWritten file b hs ess bb es key value w t small =
      let raw = finish bb in
      let file' = (append_block hashes opts file raw).0 in
      let h = (append_block hashes opts file raw).1 in
      let heavy = room-weight es key value in
      let grown = length-append_block hashes opts file raw in
      let more = index_room-snoc hs key h in
      let stored =
        append_block-IsStored hashes opts file raw (omega arith)
          (omega (arith, t.bounded, heavy)) in
      let (placed, sized) =
        append_block-handle hashes opts file raw (omega arith) (omega (arith, t.bounded, heavy)) in
      let fits =
        IndexFits-snoc hs (key, h) w.fits
          (omega (arith, heavy), omega arith, omega (arith, t.bounded, heavy)) in
      let chained =
        Chained-snoc none hs key h w.chained
          (EndsAt-Follows (last_of none hs) h (rw placed w.ends)) in
      let (b', e, indexed) =
        add_index_entry-IsIndexed 1 hs b key h w.indexed (omega arith) fits chained
          (omega (arith, more, heavy)) in
      (
        file',
        b',
        h,
        rw (has_bytes 16 es (key, value) bb t, e) refl,
        record {
          stored =
              AllStored-snoc hashes opts file' hs ess key h (es ++ (key, value) ∷ []) raw
                (AllStored-append hashes opts file hs ess
                  (with_trailer hashes opts raw (u64 (length file))) w.stored)
                stored t.held;
          indexed = indexed;
          fits = fits;
          chained = chained;
          ends = rw (last_of-snoc none hs key h) (omega (arith, grown, sized, placed));
        },
        omega (arith, grown, more, heavy, t.bounded),
      )
