-- ===== src/Sst/Outcome.antt =====
-- How a call of a reader ends: with a result, with an error (`Err(String)`), or in a panic.
use compactor.Prelude.{Option, none, some, ◌≡◌, refl, ◌⊎◌, inl, inr}
use compactor.Format.Error.{Error, Result, ok, err}

pub data Outcome {ℓ} (A : Type ℓ) : Type ℓ where
  done : A → Outcome A
  failed : Error → Outcome A
  panicked : Outcome A

abbrev pub from_result {ℓ} : {A : Type ℓ} → Result A → Outcome A
from_result (ok a) = done a
from_result (err e) = failed e

-- `?` on what a call returns; a panic ends the caller too.
infixl 5 ◌>>=◌
abbrev pub ◌>>=◌ {ℓ κ} : {A : Type ℓ} {B : Type κ} → Outcome A → (A → Outcome B) → Outcome B
done a >>= f = f a
failed e >>= f = failed e
panicked >>= f = panicked

-- The result, where there is one.
abbrev pub result_of {ℓ} : {A : Type ℓ} → Outcome A → Option A
result_of (done a) = some a
result_of (failed e) = none
result_of panicked = none

-- Outcomes with one result, or without a result, which are errors or panics.
pub same_result {ℓ} :
    {A : Type ℓ} (x y : Outcome A)
    → result_of x ≡ result_of y
    → ((a : A) × (x ≡ done a) × (y ≡ done a))
      ⊎ (((e : Error) × (x ≡ failed e)) ⊎ (x ≡ panicked))
        × (((e : Error) × (y ≡ failed e)) ⊎ (y ≡ panicked))
same_result (done a) (done b) h = inl (b, cc, refl)
same_result (failed e) (failed e') h = inr (inl (e, refl), inl (e', refl))
same_result (failed e) panicked h = inr (inl (e, refl), inr refl)
same_result panicked (failed e') h = inr (inr refl, inl (e', refl))
same_result panicked panicked h = inr (inr refl, inr refl)
same_result (done a) (failed b) h = absurd (cc h)
same_result (done a) panicked h = absurd (cc h)
same_result (failed a) (done b) h = absurd (cc h)
same_result panicked (done b) h = absurd (cc h)

-- What goes on in the same way from outcomes with one result has one result.
pub result_of-bind {ℓ κ} :
    {A : Type ℓ} {B : Type κ} (x y : Outcome A) (f g : A → Outcome B)
    → result_of x ≡ result_of y
    → ((a : A) → result_of (f a) ≡ result_of (g a))
    → result_of (x >>= f) ≡ result_of (y >>= g)
result_of-bind x y f g h k = elim (same_result x y h) [
  | inl (a, p, q) ↦ rw (p, q) (k a)
  | inr (inl (e, p), inl (e', q)) ↦ rw (p, q) refl
  | inr (inl (e, p), inr q) ↦ rw (p, q) refl
  | inr (inr p, inl (e', q)) ↦ rw (p, q) refl
  | inr (inr p, inr q) ↦ rw (p, q) refl
]
