-- ===== src/Compaction/Files/Only.antt =====
-- The entries of a list that a test picks, as the shards of a compaction get them.
use compactor.Prelude.{
  ℕ, zero, suc, ◌-◌, ◌≤◌, ◌≡◌, refl, sym, ap, ◌∙◌, Bool, true, false, ◌&&◌, leb, ltb, Bytes, List,
  [], ◌∷◌, ◌++◌, some, none, map, All, length, get_elem?, take, drop, if◌then◌else◌, arith,
  Bool-cases, inl, inr,
}
use compactor.Format.SstBuilder.Written.{weight}
use compactor.Merge.Cmp.Total.{internal_key_order}
use compactor.Merge.LoserTree.Run.{InOrder}
use compactor.Merge.Source.{KeyValue}
use compactor.Merge.Streams.{all_entries}
use compactor.Compaction.Readers.{is_version}
use compactor.Compaction.Readers.Newest.{newest}
use compactor.Compaction.Whole.Readers.{Apart, IsVersioned, seen_version}

module _ (p : KeyValue → Bool) where
  abbrev pub only : List KeyValue → List KeyValue
  only [] = []
  only (e ∷ es) = if p e then e ∷ only es else only es

  pub only-All : (P : KeyValue → Type 0) (es : List KeyValue) → All P es → All P (only es)
  only-All P [] h = tt
  only-All P (e ∷ es) (h, hs) = ground (arith, only-All P es hs, h)

  only-append : (xs ys : List KeyValue) → only (xs ++ ys) ≡ only xs ++ only ys
  only-append [] ys = refl
  only-append (e ∷ xs) ys = ground (arith, only-append xs ys)

  pub only-all_entries :
      (ess : List (List KeyValue)) → all_entries (map only ess) ≡ only (all_entries ess)
  only-all_entries [] = refl
  only-all_entries (es ∷ ess) =
      ap (◌++◌ (only es)) (only-all_entries ess) ∙ sym (only-append es (all_entries ess))

  pub only-InOrder :
      (es : List KeyValue) → InOrder internal_key_order es → InOrder internal_key_order (only es)
  only-InOrder [] h = tt
  only-InOrder (e ∷ es) (h, hs) = elim (Bool-cases (p e)) [
    | inl t ↦ rw t (only-All _ es h, only-InOrder es hs)
    | inr t ↦ rw t (only-InOrder es hs)
  ]

  pub only-IsVersioned :
      (u : Bytes) (es : List KeyValue) → IsVersioned u es → IsVersioned u (only es)
  only-IsVersioned u [] h = tt
  only-IsVersioned u (e ∷ es) (h, hs) = elim (Bool-cases (p e)) [
    | inl t ↦ rw t (only-All (Apart u e) es h, only-IsVersioned u es hs)
    | inr t ↦ rw t (only-IsVersioned u es hs)
  ]

  pub weight-only : (es : List KeyValue) → weight (only es) ≤ weight es
  weight-only [] = omega arith
  weight-only ((k, v) ∷ es) = ground (arith, weight-only es)

  pub newest-only_here :
      (u : Bytes) (r : ℕ) (es : List KeyValue)
      → All (λ e. is_version u e ≡ true → p e ≡ true) es
      → newest u r (only es) ≡ newest u r es
  unfolding newest
  newest-only_here u r [] h = refl
  newest-only_here u r (e ∷ es) (h, hs) =
      ground (arith, newest-only_here u r es hs, h, seen_version u r e)

  pub newest-only_elsewhere :
      (u : Bytes) (r : ℕ) (es : List KeyValue)
      → All (λ e. is_version u e ≡ true → p e ≡ false) es
      → newest u r (only es) ≡ none
  unfolding newest
  newest-only_elsewhere u r [] h = refl
  newest-only_elsewhere u r (e ∷ es) (h, hs) =
      ground (arith, newest-only_elsewhere u r es hs, h, seen_version u r e)

  -- The window of a list in which just the picked entries stand.
  pub window-only :
      (es : List KeyValue) (a b : ℕ)
      → ((i : ℕ) (e : KeyValue) → get_elem? es i ≡ some e → (leb a i && ltb i b) ≡ p e)
      → a ≤ b
      → b ≤ length es
      → take (b - a) (drop a es) ≡ only es
  window-only [] zero b h ab bl = let n : b - 0 ≡ 0 = omega arith in rw n refl
  window-only [] (suc a) b h ab bl = absurd (omega arith)
  window-only (e ∷ es) (suc a) zero h ab bl = absurd (omega arith)
  window-only (e ∷ es) (suc a) (suc b) h ab bl =
      let out : p e ≡ false = ground (arith, h 0 e refl) in
      let n : suc b - suc a ≡ b - a = omega arith in
      rw (out, n)
        (window-only es a b (λ i x q. ground (arith, h (suc i) x q)) (omega arith) (omega arith))
  window-only (e ∷ es) zero zero h ab bl =
      let out : p e ≡ false = ground (arith, h 0 e refl) in
      rw out (
        window-only es zero zero (λ i x q. ground (arith, h (suc i) x q)) (omega arith)
          (omega arith))
  window-only (e ∷ es) zero (suc b) h ab bl =
      let in_ : p e ≡ true = ground (arith, h 0 e refl) in
      let n : suc b - 0 ≡ suc (b - 0) = omega arith in
      rw (in_, n)
        (ap (◌∷◌ e) (
          window-only es zero b (λ i x q. ground (arith, h (suc i) x q)) (omega arith)
            (omega arith)))
