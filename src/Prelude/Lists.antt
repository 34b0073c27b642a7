-- ===== src/Prelude/Lists.antt =====
-- Lists measured and indexed by native numbers, and the reading of a buffer at a position.
use Prim.Native.Nat.{ℕ, zero, suc, ◌+◌, ◌-◌, ◌≤◌, ◌<◌, min}
use mathlib.Core.Path.{◌≡◌, refl, sym, ap, ◌∙◌}
use mathlib.Core.Logic.{◌≢◌}
use mathlib.Core.List.{List, [], ◌∷◌, ◌++◌}
use mathlib.Core.Option.{Option, none, some}
use native.Mathlib.Omega.{arith}
use compactor.Prelude.Tests.{leb, le→leb, if◌then◌else◌}

module _ {ℓ} {A : Type ℓ} where
  abbrev pub length : List A → ℕ
  length [] = 0
  length (x ∷ xs) = suc (length xs)

  abbrev pub get_elem? : List A → ℕ → Option A
  get_elem? [] i = none
  get_elem? (x ∷ xs) zero = some x
  get_elem? (x ∷ xs) (suc i) = get_elem? xs i

  abbrev pub take : ℕ → List A → List A
  take zero xs = []
  take (suc n) [] = []
  take (suc n) (x ∷ xs) = x ∷ take n xs

  abbrev pub drop : ℕ → List A → List A
  drop zero xs = xs
  drop (suc n) [] = []
  drop (suc n) (x ∷ xs) = drop n xs

  -- A write out of bounds changes nothing.
  abbrev pub set : List A → ℕ → A → List A
  set [] i v = []
  set (x ∷ xs) zero v = v ∷ xs
  set (x ∷ xs) (suc i) v = x ∷ set xs i v

  abbrev pub replicate : ℕ → A → List A
  replicate zero a = []
  replicate (suc n) a = a ∷ replicate n a

  abbrev pub All {κ} : (A → Type κ) → List A → Type κ
  All P [] = Unit {κ}
  All P (x ∷ xs) = P x × All P xs

  pub length-append : (xs ys : List A) → length (xs ++ ys) ≡ length xs + length ys
  length-append [] ys = omega arith
  length-append (x ∷ xs) ys = omega (arith, length-append xs ys)

  pub take-append-drop : (n : ℕ) (xs : List A) → take n xs ++ drop n xs ≡ xs
  take-append-drop zero xs = refl
  take-append-drop (suc n) [] = refl
  take-append-drop (suc n) (x ∷ xs) = ap (◌∷◌ x) (take-append-drop n xs)

  pub length-set : (xs : List A) (i : ℕ) (v : A) → length (set xs i v) ≡ length xs
  length-set [] i v = refl
  length-set (x ∷ xs) zero v = refl
  length-set (x ∷ xs) (suc i) v = ap suc (length-set xs i v)

  pub get_elem?-set_self :
      (xs : List A) (i : ℕ) (v : A) → i < length xs → get_elem? (set xs i v) i ≡ some v
  get_elem?-set_self [] i v h = absurd (omega arith)
  get_elem?-set_self (x ∷ xs) zero v h = refl
  get_elem?-set_self (x ∷ xs) (suc i) v h = get_elem?-set_self xs i v (omega arith)

  pub get_elem?-set_other :
      (xs : List A) (i : ℕ) (v : A) (j : ℕ) → j ≢ i → get_elem? (set xs i v) j ≡ get_elem? xs j
  get_elem?-set_other [] i v j h = refl
  get_elem?-set_other (x ∷ xs) zero v zero h = absurd (h refl)
  get_elem?-set_other (x ∷ xs) zero v (suc j) h = refl
  get_elem?-set_other (x ∷ xs) (suc i) v zero h = refl
  get_elem?-set_other (x ∷ xs) (suc i) v (suc j) h =
      get_elem?-set_other xs i v j (λ e. h (ap suc e))

  pub length-take : (n : ℕ) (xs : List A) → length (take n xs) ≡ min n (length xs)
  length-take zero xs = omega arith
  length-take (suc n) [] = omega arith
  length-take (suc n) (x ∷ xs) = omega (arith, length-take n xs)

  pub length-drop : (n : ℕ) (xs : List A) → length (drop n xs) ≡ length xs - n
  length-drop zero xs = omega arith
  length-drop (suc n) [] = omega arith
  length-drop (suc n) (x ∷ xs) = omega (arith, length-drop n xs)

  pub length-replicate : (n : ℕ) (a : A) → length (replicate n a) ≡ n
  length-replicate zero a = refl
  length-replicate (suc n) a = ap suc (length-replicate n a)

  pub take-append_length : (xs ys : List A) → take (length xs) (xs ++ ys) ≡ xs
  take-append_length [] ys = refl
  take-append_length (x ∷ xs) ys = ap (◌∷◌ x) (take-append_length xs ys)

  pub drop-append_length : (xs ys : List A) → drop (length xs) (xs ++ ys) ≡ ys
  drop-append_length [] ys = refl
  drop-append_length (x ∷ xs) ys = drop-append_length xs ys

  pub drop-nil : (n : ℕ) → drop n [] ≡ []
  drop-nil zero = refl
  drop-nil (suc n) = refl

  pub drop-add : (m n : ℕ) (xs : List A) → drop n (drop m xs) ≡ drop (m + n) xs
  drop-add zero n xs = ap (λ (k : ℕ). drop k xs) (omega arith)
  drop-add (suc m) n [] = drop-nil n ∙ sym (drop-nil (suc m + n))
  drop-add (suc m) n (x ∷ xs) =
      let e : suc (m + n) ≡ suc m + n = omega arith in
      drop-add m n xs ∙ ap (λ (k : ℕ). drop k (x ∷ xs)) e

-- A buffer `buf` is read at position `p`: what is still ahead is `drop p buf`.
module _ {ℓ} {A : Type ℓ} where
  -- `buf.get(p..p + n)`: none where the range leaves the buffer.
  unfoldable pub slice : List A → ℕ → ℕ → Option (List A)
  slice buf p n = if leb (p + n) (length buf) then some (take n (drop p buf)) else none

  pub get_elem?-some_lt : (buf : List A) (p : ℕ) {x : A} → get_elem? buf p ≡ some x → p < length buf
  get_elem?-some_lt [] p e = cc
  get_elem?-some_lt (y ∷ ys) zero e = omega arith
  get_elem?-some_lt (y ∷ ys) (suc p) e = omega (arith, get_elem?-some_lt ys p e)

  pub get_elem?-drop :
      (p : ℕ) (buf : List A) {x : A} {rest : List A}
      → drop p buf ≡ x ∷ rest
      → get_elem? buf p ≡ some x
  get_elem?-drop zero [] e = cc
  get_elem?-drop zero (y ∷ ys) e = cc
  get_elem?-drop (suc p) [] e = cc
  get_elem?-drop (suc p) (y ∷ ys) e = get_elem?-drop p ys e

  pub drop-advance :
      (p : ℕ) (buf xs rest : List A) → drop p buf ≡ xs ++ rest → drop (p + length xs) buf ≡ rest
  drop-advance p buf xs rest e =
      sym (drop-add p (length xs) buf) ∙ ap (drop (length xs)) e ∙ drop-append_length xs rest

  pub slice-drop :
      (p : ℕ) (buf xs rest : List A)
      → drop p buf ≡ xs ++ rest
      → p ≤ length buf
      → slice buf p (length xs) ≡ some xs
  unfolding slice
  slice-drop p buf xs rest e h =
      let fits : p + length xs ≤ length buf =
        omega (arith, length-drop p buf, ap length e, length-append xs rest) in
      rw (le→leb _ _ fits, e, take-append_length xs rest)

-- The reader stands at `p`, within the buffer, and `rest` is ahead.
module _ {ℓ} {A : Type ℓ} where
  abbrev pub At : List A → ℕ → List A → Type ℓ
  At buf p rest = (p ≤ length buf) × (drop p buf ≡ rest)

  pub At-advance :
      (buf : List A) (p : ℕ) (xs rest : List A)
      → At buf p (xs ++ rest)
      → At buf (p + length xs) rest
  At-advance buf p xs rest (h, e) = (
    omega (arith, length-drop p buf, ap length e, length-append xs rest),
    drop-advance p buf xs rest e,
  )

  pub At-end : (buf : List A) (p : ℕ) → At buf p [] → p ≡ length buf
  At-end buf p (h, e) = omega (arith, length-drop p buf, ap length e)

  pub take-drop_cover :
      (n : ℕ) (xs ys : List A) → take n xs ≡ take n ys → take n xs ++ drop n ys ≡ ys
  take-drop_cover n xs ys e = ap (λ (zs : List A). zs ++ drop n ys) e ∙ take-append-drop n ys
