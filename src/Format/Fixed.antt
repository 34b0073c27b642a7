-- ===== src/Format/Fixed.antt =====
-- `to_le_bytes` and `from_le_bytes` of the fixed-width integers, as format/ and merge/ use them.
use compactor.Prelude.{
  ℕ, zero, suc, ◌+◌, ◌*◌, ◌/◌, ◌%◌, ◌^◌, ◌<◌, ◌≡◌, refl, ap, [], ◌∷◌, Bytes, All, length, arith,
}
use native.Mathlib.Nat.{pow-suc}

-- The `n` lowest bytes of `v`, lowest first.
unfoldable pub le_bytes : ℕ → ℕ → Bytes
le_bytes zero v = []
le_bytes (suc n) v = v % 256 ∷ le_bytes n (v / 256)

unfoldable pub from_le_bytes : Bytes → ℕ
from_le_bytes [] = 0
from_le_bytes (b ∷ bs) = b + 256 * from_le_bytes bs

abbrev pub to_le_bytes32 : ℕ → Bytes
to_le_bytes32 v = le_bytes 4 v

abbrev pub to_le_bytes64 : ℕ → Bytes
to_le_bytes64 v = le_bytes 8 v

pub length-le_bytes : (n v : ℕ) → length (le_bytes n v) ≡ n
unfolding le_bytes
length-le_bytes zero v = refl
length-le_bytes (suc n) v = ap suc (length-le_bytes n (v / 256))

pub le_bytes-IsByte : (n v : ℕ) → All (λ b. b < 256) (le_bytes n v)
unfolding le_bytes
le_bytes-IsByte zero v = tt
le_bytes-IsByte (suc n) v = (omega arith, le_bytes-IsByte n (v / 256))

pub from_le_bytes-le_bytes : (n v : ℕ) → v < 256 ^ n → from_le_bytes (le_bytes n v) ≡ v
unfolding le_bytes from_le_bytes
from_le_bytes-le_bytes zero v h = omega arith
from_le_bytes-le_bytes (suc n) v h = omega (arith, from_le_bytes-le_bytes n (v / 256) (omega arith))

pub le_bytes-from_le_bytes :
    (bs : Bytes) → All (λ b. b < 256) bs → le_bytes (length bs) (from_le_bytes bs) ≡ bs
unfolding le_bytes from_le_bytes
le_bytes-from_le_bytes [] h = refl
le_bytes-from_le_bytes (b ∷ bs) (hb, hbs) = ground (
  arith,
  le_bytes-from_le_bytes bs hbs,
  ap (le_bytes (length bs)) (quotient b (from_le_bytes bs) hb),
)
  where
    quotient : (b q : ℕ) → b < 256 → (b + 256 * q) / 256 ≡ q
    quotient b q h = omega arith

pub from_le_bytes-lt : (bs : Bytes) → All (λ b. b < 256) bs → from_le_bytes bs < 256 ^ length bs
unfolding from_le_bytes
from_le_bytes-lt [] h = omega arith
from_le_bytes-lt (b ∷ bs) (hb, hbs) =
    omega (arith, from_le_bytes-lt bs hbs, pow-suc 256 (length bs))
