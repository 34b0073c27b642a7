-- ===== src/Format/BlockBuilder/Building.antt =====
-- A whole block: `add` never fails its assertions, and what `finish` returns.
use compactor.Prelude.{
  ℕ, ◌+◌, ◌^◌, ◌≤◌, ◌<◌, ◌≡◌, refl, sym, ◌∙◌, List, [], ◌∷◌, ◌++◌, length, leb, if◌then◌else◌, some,
  All, arith, append_assoc, append-nil, length-append, Bool-cases, inl, inr,
}
use compactor.Prelude.Bits.{u32}
use compactor.Format.BlockBuilder.{BlockBuilder}
use compactor.Format.BlockBuilder.Encoding.{
  Entry, Fits, encoded, add_all, IsReady, added, added-IsReady, add-added, entry_bytes, shared_at,
  next_counter,
}

-- What a builder holds after some entries, counted from where it stood.
pub record Built (b b' : BlockBuilder) (es : List Entry) : Type 0 where
  pub ready : IsReady b'
  pub content : b'.buffer ≡ b.buffer ++ encoded b.restart_interval b.counter b.last_key es
  pub restart_count : length b'.restarts ≤ length b.restarts + length es
  pub small : All (λ r. r < 2 ^ 32) b.restarts → All (λ r. r < 2 ^ 32) b'.restarts

one_more :
    (b : BlockBuilder) (r : ℕ)
    → length (if leb b.restart_interval b.counter then b.restarts ++ r ∷ [] else b.restarts)
      ≤ length b.restarts + 1
one_more b r = ground (arith, length-append b.restarts (r ∷ []))

All-snoc :
    (rs : List ℕ) (r : ℕ)
    → All (λ r. r < 2 ^ 32) rs
    → r < 2 ^ 32
    → All (λ r. r < 2 ^ 32) (rs ++ r ∷ [])
All-snoc [] r h k = (k, tt)
All-snoc (x ∷ rs) r (hx, h) k = (hx, All-snoc rs r h k)

small_more :
    (b : BlockBuilder) (n : ℕ)
    → All (λ r. r < 2 ^ 32) b.restarts
    → All
        (λ r. r < 2 ^ 32)
        (if leb b.restart_interval b.counter then b.restarts ++ u32 n ∷ [] else b.restarts)
small_more b n h = elim (Bool-cases (leb b.restart_interval b.counter)) [
  | inl e ↦ rw e (All-snoc b.restarts (u32 n) h (omega arith))
  | inr e ↦ rw e h
]

-- A ready builder takes every list of entries that fit: no assertion of `add` fails.
pub add_all-Built :
    (es : List Entry) (b : BlockBuilder)
    → 1 ≤ b.restart_interval
    → IsReady b
    → All Fits es
    → (b' : BlockBuilder) × (add_all b es ≡ some b') × Built b b' es
unfolding add_all encoded added
add_all-Built [] b h r f = (
  b,
  refl,
  record {
    ready = r;
    content = sym (append-nil b.buffer);
    restart_count = omega arith;
    small = λ s. s;
  },
)
add_all-Built ((key, value) ∷ es) b h r (f, fs) =
    let (b', e, t) = add_all-Built es (added b key value) h (added-IsReady b key value h r) fs in
    (
      b',
      rw (add-added b key value r f) e,
      record {
        ready = t.ready;
        content =
            t.content
            ∙ append_assoc b.buffer
                (entry_bytes (shared_at b.restart_interval b.counter b.last_key key) key value)
                (encoded b.restart_interval (next_counter b.restart_interval b.counter) key es);
        restart_count = omega (arith, t.restart_count, one_more b (u32 (length b.buffer)));
        small = λ s. t.small (small_more b (length b.buffer) s);
      },
    )
