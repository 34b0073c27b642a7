-- ===== src/Format/Block/RoundTrip.antt =====
-- A data block from `BlockBuilder` to `parse_block` and `for_each_entry`.
use compactor.Prelude.{
  ℕ, suc, ◌+◌, ◌-◌, ◌*◌, ◌^◌, ◌≤◌, ◌<◌, ◌≡◌, refl, ap, ◌∙◌, Bytes, List, [], ◌∷◌, take, length, All,
  arith, take-append_length, Option, some, ◌>>=◌, false, le→leb,
}
use compactor.Format.Error
use compactor.Format.Error.{Result, ok}
use compactor.Format.BlockBuilder.{BlockBuilder, new, finish}
use compactor.Format.BlockBuilder.Encoding.{Entry, Fits, add_all, encoded}
use compactor.Format.BlockBuilder.Building.{add_all-Built}
use compactor.Format.Block.{parse_block, for_each_entry}
use compactor.Format.Block.Entries.{fold_entries, entries_loop-encoded}
use compactor.Format.Block.Restarts.{finish-restart_bytes, parse_block-finish, length-finish}

-- `BlockBuilder::new`, an `add` for each entry, `finish`.
unfoldable pub build : ℕ → List Entry → Option Bytes
build interval es = do b ← new interval; b' ← add_all b es; some (finish b')

-- `parse_block`, then `for_each_entry`.
unfoldable pub walk :
    {S : Type 0} → (S → Bytes → Bytes → S) → S → Bytes → Result (S × Result (Unit {0}))
walk f s bytes = Error.◌>>=◌ (parse_block bytes) (λ block. ok (for_each_entry f block s))

abbrev pub fresh : ℕ → BlockBuilder
fresh interval = record {
  restart_interval = interval;
  buffer = [];
  restarts = 0 ∷ [];
  last_key = [];
  counter = 0;
  finished = false;
}

pub new-fresh : (interval : ℕ) → 1 ≤ interval → new interval ≡ some (fresh interval)
unfolding new
new-fresh interval h = rw (le→leb 1 interval h)

module _ {S : Type 0} (f : S → Bytes → Bytes → S) (s : S) where
  -- The entries of a finished builder are the bytes in front of its restart array.
  pub for_each_entry-finish :
      (b : BlockBuilder) (interval counter : ℕ) (es : List Entry)
      → length b.restarts < 2 ^ 32
      → b.buffer ≡ encoded interval counter [] es
      → All Fits es
      → for_each_entry f (record { contents = finish b; restarts = b.restarts }) s
        ≡ (fold_entries f s es, ok tt)
  unfolding for_each_entry
  for_each_entry-finish b interval counter es n content fits =
      let cut : length (finish b) - 4 - length b.restarts * 4 ≡ length b.buffer =
        omega (arith, length-finish b n) in
      let front : take (length b.buffer) (finish b) ≡ b.buffer =
        ap (take (length b.buffer)) (finish-restart_bytes b) ∙ take-append_length b.buffer _ in
      rw (cut, front)
        (entries_loop-encoded f interval b.buffer es (suc (length b.buffer)) counter 0 [] s
          (omega arith, content) fits (omega arith))

  -- Every list of entries whose keys and values have lengths below 2 ^ 32, fewer than 2 ^ 32 - 1 of
  -- them, builds with any restart interval from 1 on: no assertion fails. The block that is built
  -- parses, and the walk over it calls the callback on exactly these keys and values, in their
  -- order, and ends without error.
  pub walk-build :
      (interval : ℕ) (es : List Entry)
      → 1 ≤ interval
      → All Fits es
      → length es + 1 < 2 ^ 32
      → (bytes : Bytes) × (build interval es ≡ some bytes)
        × (walk f s bytes ≡ ok (fold_entries f s es, ok tt))
  unfolding build walk
  walk-build interval es h fits few =
      let (b, e, t) =
        add_all-Built es (fresh interval) h (record { open_ = refl; counted = omega arith }) fits in
      let n : length b.restarts < 2 ^ 32 = omega (arith, t.restart_count) in
      (
        finish b,
        rw (new-fresh interval h, e),
        rw (parse_block-finish b n (t.small (omega arith)))
            (ap ok (for_each_entry-finish b interval 0 es n t.content fits)),
      )
