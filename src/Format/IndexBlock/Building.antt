-- ===== src/Format/IndexBlock/Building.antt =====
-- A whole index block: no `expect` of `add` fails, and what the builder holds in the end.
use compactor.Prelude.{
  ℕ, suc, ◌+◌, ◌^◌, ◌≤◌, ◌<◌, ◌≡◌, refl, sym, ap, ◌∙◌, Bool, true, false, Bytes, List, [], ◌∷◌,
  ◌++◌, length, leb, if◌then◌else◌, Option, some, ◌>>=◌, arith, append_assoc, append-nil,
  length-append, Bool-cases, inl, inr, All,
}
use compactor.Prelude.Bits.{u32}
use compactor.Format.BlockBuilder.Encoding.{shared_at, next_counter}
use compactor.Format.Checksum.{BlockHandle}
use compactor.Format.IndexBlock.{IndexBlockBuilder, add_index_entry}
use compactor.Format.IndexBlock.Encoding.{
  IndexEntry, IndexFits, IsLinked, index_entry_bytes, index_encoded, restarts_ahead, index_added,
  add_index_entry-added,
}

-- The entries that a caller adds one after the other.
unfoldable pub add_index_all : IndexBlockBuilder → List IndexEntry → Option IndexBlockBuilder
add_index_all b [] = some b
add_index_all b ((key, h) ∷ es) = do b' ← add_index_entry b key h; add_index_all b' es

pub record IndexBuilt (b b' : IndexBlockBuilder) (es : List IndexEntry) : Type 0 where
  pub content :
      b'.buffer ≡ b.buffer ++ index_encoded b.restart_interval b.counter b.last_key b.last_handle es
  pub offsets :
      b'.restarts
      ≡ b.restarts
        ++ restarts_ahead b.restart_interval b.counter b.last_key b.last_handle (length b.buffer) es

added_restarts :
    (b : IndexBlockBuilder) (key : Bytes) (h : BlockHandle) (rest : List ℕ)
    → length b.buffer < 2 ^ 32
    → (index_added b key h).restarts ++ rest
      ≡ b.restarts
        ++ ((if leb b.restart_interval b.counter then length b.buffer ∷ [] else []) ++ rest)
unfolding index_added
added_restarts b key h rest small = elim (Bool-cases (leb b.restart_interval b.counter)) [
  | inl t ↦
      let same : u32 (length b.buffer) ≡ length b.buffer = omega arith in
      rw (t, same) (append_assoc b.restarts (length b.buffer ∷ []) rest)
  | inr t ↦ rw t refl
]

pub add_index_all-Built :
    (es : List IndexEntry) (b : IndexBlockBuilder)
    → All IndexFits es
    → IsLinked b.last_key b.last_handle
    → length b.buffer
        + length (index_encoded b.restart_interval b.counter b.last_key b.last_handle es)
      < 2 ^ 32
    → (b' : IndexBlockBuilder) × (add_index_all b es ≡ some b') × IndexBuilt b b' es
unfolding add_index_all index_encoded restarts_ahead index_added
add_index_all-Built [] b f l n =
    (b, refl, record { content = sym (append-nil b.buffer); offsets = sym (append-nil b.restarts) })
add_index_all-Built ((key, h) ∷ es) b ((hk, _, hs), fs) l n =
    let interval = b.restart_interval in
    let bytes =
      index_entry_bytes (shared_at interval b.counter b.last_key key) b.last_handle key h in
    let rest = index_encoded interval (next_counter interval b.counter) key (some h) es in
    let ahead =
      λ (pos : ℕ). restarts_ahead interval (next_counter interval b.counter) key (some h) pos es in
    let longer = length-append b.buffer bytes in
    let (b', e, t) =
      add_index_all-Built es (index_added b key h) fs hs
        (omega (arith, longer, length-append bytes rest)) in
    (
      b',
      rw (add_index_entry-added b key h hk l) e,
      record {
        content = t.content ∙ append_assoc b.buffer bytes rest;
        offsets =
            t.offsets
            ∙ added_restarts b key h _ (omega arith)
            ∙ ap
                (λ (pos : ℕ).
                  b.restarts
                  ++ ((if leb interval b.counter then length b.buffer ∷ [] else []) ++ ahead pos))
                longer;
      },
    )

Within-wider :
    (lo hi lo' hi' : ℕ) (rs : List ℕ)
    → lo' ≤ lo
    → hi ≤ hi'
    → All (λ r. (lo ≤ r) × (r ≤ hi)) rs
    → All (λ r. (lo' ≤ r) × (r ≤ hi')) rs
Within-wider lo hi lo' hi' [] h k t = tt
Within-wider lo hi lo' hi' (r ∷ rs) h k ((t, u), ts) =
    ((omega arith, omega arith), Within-wider lo hi lo' hi' rs h k ts)

first_offset :
    (b : Bool) (pos hi n : ℕ) (rs : List ℕ)
    → length rs ≤ n
    → pos ≤ hi
    → All (λ r. (pos ≤ r) × (r ≤ hi)) rs
    → (length ((if b then pos ∷ [] else []) ++ rs) ≤ suc n)
      × All (λ r. (pos ≤ r) × (r ≤ hi)) ((if b then pos ∷ [] else []) ++ rs)
first_offset true pos hi n rs few h t = (omega arith, ((omega arith, h), t))
first_offset false pos hi n rs few h t = (omega arith, t)

-- The restart offsets stand between the first entry and the last.
pub restarts_ahead-All :
    (es : List IndexEntry) (interval counter : ℕ) (last : Bytes) (prev : Option BlockHandle)
    (pos : ℕ)
    → (length (restarts_ahead interval counter last prev pos es) ≤ length es)
      × All
          (λ r. (pos ≤ r) × (r ≤ pos + length (index_encoded interval counter last prev es)))
          (restarts_ahead interval counter last prev pos es)
unfolding restarts_ahead index_encoded
restarts_ahead-All [] interval counter last prev pos = (omega arith, tt)
restarts_ahead-All ((key, h) ∷ es) interval counter last prev pos =
    let bytes = index_entry_bytes (shared_at interval counter last key) prev key h in
    let counter' = next_counter interval counter in
    let rest = index_encoded interval counter' key (some h) es in
    let whole = length-append bytes rest in
    let (few, within) = restarts_ahead-All es interval counter' key (some h) (pos + length bytes) in
    let within' =
      Within-wider _ _ pos (pos + length (bytes ++ rest)) _ (omega arith) (omega (arith, whole))
        within in
    first_offset (leb interval counter) pos (pos + length (bytes ++ rest)) (length es) _ few
      (omega arith) within'
