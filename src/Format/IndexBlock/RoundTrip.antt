-- ===== src/Format/IndexBlock/RoundTrip.antt =====
-- An index block from `IndexBlockBuilder` to `parse_block` and `for_each_index_entry`.
use compactor.Prelude.{
  ℕ, suc, ◌+◌, ◌-◌, ◌*◌, ◌^◌, ◌≤◌, ◌<◌, ◌≡◌, refl, sym, ap, ◌∙◌, Bytes, List, [], ◌∷◌, take, length,
  All, arith, take-append_length, Option, some, none, ◌>>=◌, false, le→leb, subst, inl,
}
use compactor.Format.Error
use compactor.Format.Error.{Result, ok}
use compactor.Format.BlockBuilder.{BlockBuilder, finish}
use compactor.Format.Block.{parse_block}
use compactor.Format.Block.Restarts.{finish-restart_bytes, parse_block-finish, length-finish}
use compactor.Format.Checksum.{BlockHandle}
use compactor.Format.IndexBlock.{
  IndexBlockBuilder, new_index_builder, finish_index, for_each_index_entry,
}
use compactor.Format.IndexBlock.Encoding.{
  IndexEntry, IndexFits, Chained, index_encoded, restarts_ahead,
}
use compactor.Format.IndexBlock.Building.{add_index_all, add_index_all-Built, restarts_ahead-All}
use compactor.Format.IndexBlock.Walk.{fold_index, index_loop-encoded}

-- `IndexBlockBuilder::new`, an `add` for each entry, `finish`.
unfoldable pub build_index : ℕ → List IndexEntry → Option Bytes
build_index interval es = do
  b ← new_index_builder interval
  b' ← add_index_all b es
  some (finish_index b')

-- `parse_block`, then `for_each_index_entry`.
unfoldable pub walk_index :
    {S : Type 0} → (S → Bytes → BlockHandle → S) → S → Bytes → Result (S × Result (Unit {0}))
walk_index f s bytes =
    Error.◌>>=◌ (parse_block bytes) (λ block. ok (for_each_index_entry f block s))

abbrev pub fresh : ℕ → IndexBlockBuilder
fresh interval = record {
  restart_interval = interval;
  buffer = [];
  restarts = 0 ∷ [];
  last_key = [];
  last_handle = none;
  counter = 0;
}

pub new_index_builder-fresh :
    (interval : ℕ) → 1 ≤ interval → new_index_builder interval ≡ some (fresh interval)
unfolding new_index_builder
new_index_builder-fresh interval h = rw (le→leb 1 interval h) refl

-- The data block builder with the same bytes, whose trailer is the same.
abbrev pub as_block : IndexBlockBuilder → BlockBuilder
as_block b = record {
  restart_interval = b.restart_interval;
  buffer = b.buffer;
  restarts = b.restarts;
  last_key = b.last_key;
  counter = b.counter;
  finished = false;
}

pub finish_index-finish : (b : IndexBlockBuilder) → finish_index b ≡ finish (as_block b)
unfolding finish_index finish
finish_index-finish b = refl

pub small_offsets :
    (hi : ℕ) (rs : List ℕ)
    → hi < 2 ^ 32
    → All (λ r. (0 ≤ r) × (r ≤ hi)) rs
    → All (λ r. r < 2 ^ 32) rs
small_offsets hi [] h t = tt
small_offsets hi (r ∷ rs) h ((_, t), ts) = (omega arith, small_offsets hi rs h ts)

module _ {S : Type 0} (f : S → Bytes → BlockHandle → S) (s : S) where
  pub for_each_index_entry-finish :
      (b : BlockBuilder) (interval : ℕ) (es : List IndexEntry)
      → length b.restarts < 2 ^ 32
      → b.buffer ≡ index_encoded interval 0 [] none es
      → b.restarts ≡ 0 ∷ restarts_ahead interval 0 [] none 0 es
      → All IndexFits es
      → Chained none es
      → for_each_index_entry f (record { contents = finish b; restarts = b.restarts }) s
        ≡ (fold_index f s es, ok tt)
  unfolding for_each_index_entry
  for_each_index_entry-finish b interval es n content offsets fits chained =
      let cut : length (finish b) - 4 - length b.restarts * 4 ≡ length b.buffer =
        omega (arith, length-finish b n) in
      let front : take (length b.buffer) (finish b) ≡ b.buffer =
        ap (take (length b.buffer)) (finish-restart_bytes b) ∙ take-append_length b.buffer _ in
      rw (cut, front)
        (index_loop-encoded f interval b.buffer es (suc (length b.buffer)) 0 0 [] none (0 ∷ [])
          b.restarts s (omega arith, content) offsets ((omega arith, tt), inl refl) fits refl
          chained (omega arith))

  -- A list of entries, each with a key shorter than 2 ^ 32 and the handle of a block that stands
  -- behind the one before it and its trailer, with an offset and a size below 2 ^ 64, builds with any
  -- restart interval from 1 on, where its bytes and its number stay below 2 ^ 32: no `expect` fails.
  -- The block that is built parses, and the walk over it calls the callback on exactly these keys and
  -- handles, in their order, and ends without error.
  pub walk_index-build_index :
      (interval : ℕ) (es : List IndexEntry)
      → 1 ≤ interval
      → All IndexFits es
      → Chained none es
      → length es + 1 < 2 ^ 32
      → length (index_encoded interval 0 [] none es) < 2 ^ 32
      → (bytes : Bytes) × (build_index interval es ≡ some bytes)
        × (walk_index f s bytes ≡ ok (fold_index f s es, ok tt))
  unfolding build_index walk_index
  walk_index-build_index interval es h fits chained few small =
      let (b, e, t) = add_index_all-Built es (fresh interval) fits refl (omega (arith, small)) in
      let (n, within) = restarts_ahead-All es interval 0 [] none 0 in
      let count : length b.restarts < 2 ^ 32 = omega (arith, ap length t.offsets, n) in
      let offsets : All (λ r. r < 2 ^ 32) b.restarts =
        subst (All (λ r. r < 2 ^ 32)) (sym t.offsets)
          (omega arith, small_offsets _ _ (omega arith) within) in
      (
        finish_index b,
        rw (new_index_builder-fresh interval h, e) refl,
        rw (finish_index-finish b, parse_block-finish (as_block b) count offsets)
            (ap ok (
              for_each_index_entry-finish (as_block b) interval es count t.content t.offsets fits
                chained)),
      )
