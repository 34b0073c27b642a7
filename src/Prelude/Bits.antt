-- ===== src/Prelude/Bits.antt =====
-- Masks and shifts of machine words as arithmetic.
use Prim.Native.Nat.{
  ℕ, zero, suc, ◌+◌, ◌*◌, ◌/◌, ◌%◌, ◌^◌, ◌≤◌, ◌<◌, max, min, bit_and, bit_or, bit_xor, digits,
  bit_or-bitwise, bit_and-bitwise, bit_xor-bitwise, ◌-◌, differ,
}
use mathlib.Core.Path.{◌≡◌, refl, ap}
use mathlib.Core.Bool.{Bool, true, ◌&&◌}
use native.Mathlib.Omega.{arith}
use native.Mathlib.Nat.{pow-suc}
use compactor.Prelude.Tests.{◌==◌}

-- Casts of the source: `as u8`, `as u32`, and what a `u64` keeps of a shift to the left.
abbrev pub u8 : ℕ → ℕ
u8 x = x % 2 ^ 8

abbrev pub u32 : ℕ → ℕ
u32 x = x % 2 ^ 32

abbrev pub u64 : ℕ → ℕ
u64 x = x % 2 ^ 64

-- Two functions that agree below `n`, by evaluation at each value.
agree : ℕ → (ℕ → ℕ) → (ℕ → ℕ) → Bool
agree zero f g = true
agree (suc n) f g = f n == g n && agree n f g

agree_lem : (n : ℕ) (f g : ℕ → ℕ) → agree n f g ≡ true → (x : ℕ) → x < n → f x ≡ g x
unfolding agree
agree_lem zero f g e x h = absurd (omega arith)
agree_lem (suc n) f g e x h = ground (arith, agree_lem n f g (ground arith) x)

pub low_seven : (b : ℕ) → b < 256 → bit_and b 0x7f ≡ b % 128
unfolding agree
low_seven = agree_lem 256 _ _ refl

pub top_bit : (b : ℕ) → b < 256 → bit_and b 0x80 ≡ b / 128 * 128
unfolding agree
top_bit = agree_lem 256 _ _ refl

pub set_top : (b : ℕ) → b < 128 → bit_or b 0x80 ≡ b + 128
unfolding agree
set_top = agree_lem 128 _ _ refl

-- `|` digit by digit. The fuel of the recursion that it stands for does not matter.
abbrev or_digits : ℕ → ℕ → ℕ → ℕ
or_digits = digits (λ b. b) max

or_digits_enough : (n k a b : ℕ) → a ≤ n → n ≤ k → or_digits k a b ≡ or_digits n a b
or_digits_enough n zero zero b p q = ground arith
or_digits_enough zero (suc k) zero b p q = refl
or_digits_enough (suc n) (suc k) zero b p q = refl
or_digits_enough zero k (suc a) b p q = absurd (omega arith)
or_digits_enough (suc n) zero (suc a) b p q = absurd (omega arith)
or_digits_enough (suc n) (suc k) (suc a) b p q =
    rw (or_digits_enough n k (suc a / 2) (b / 2) (omega arith) (omega arith))

zero-bit_or : (b : ℕ) → bit_or 0 b ≡ b
zero-bit_or b = bit_or-bitwise 0 b

bit_or-halves : (a b : ℕ) → bit_or a b ≡ bit_or (a / 2) (b / 2) * 2 + max (a % 2) (b % 2)
bit_or-halves zero b = omega (arith, zero-bit_or b, zero-bit_or (b / 2))
bit_or-halves (suc a) b = omega (
  arith,
  bit_or-bitwise (suc a) b,
  bit_or-bitwise (suc a / 2) (b / 2),
  or_digits_enough (suc a / 2) a (suc a / 2) (b / 2) (omega arith) (omega arith),
)

-- `|` of a word below `2 ^ s` and one shifted to the left by `s` is their sum.
pub bit_or-shifted : (s a b : ℕ) → a < 2 ^ s → bit_or a (b * 2 ^ s) ≡ a + b * 2 ^ s
bit_or-shifted zero a b h = ground (arith, zero-bit_or (b * 1))
bit_or-shifted (suc s) a b h = ground (
  arith,
  bit_or-halves a (b * 2 ^ suc s),
  ap (λ (t : ℕ). b * t) (pow-suc 2 s),
  bit_or-shifted s (a / 2) b (omega arith),
)

-- `&` with a mask of low bits, in the same way.
abbrev and_digits : ℕ → ℕ → ℕ → ℕ
and_digits = digits (λ b. 0) min

and_digits_enough : (n k a b : ℕ) → a ≤ n → n ≤ k → and_digits k a b ≡ and_digits n a b
and_digits_enough zero zero zero b p q = refl
and_digits_enough (suc n) zero a b p q = absurd (omega arith)
and_digits_enough zero (suc k) zero b p q = refl
and_digits_enough (suc n) (suc k) zero b p q = refl
and_digits_enough zero k (suc a) b p q = absurd (omega arith)
and_digits_enough (suc n) (suc k) (suc a) b p q =
    rw (and_digits_enough n k (suc a / 2) (b / 2) (omega arith) (omega arith))

zero-bit_and : (b : ℕ) → bit_and 0 b ≡ 0
zero-bit_and b = bit_and-bitwise 0 b

bit_and-halves : (a b : ℕ) → bit_and a b ≡ bit_and (a / 2) (b / 2) * 2 + min (a % 2) (b % 2)
bit_and-halves zero b = omega (arith, zero-bit_and b, zero-bit_and (b / 2))
bit_and-halves (suc a) b = omega (
  arith,
  bit_and-bitwise (suc a) b,
  bit_and-bitwise (suc a / 2) (b / 2),
  and_digits_enough (suc a / 2) a (suc a / 2) (b / 2) (omega arith) (omega arith),
)

bit_and-zero_below : (n a : ℕ) → a ≤ n → bit_and a 0 ≡ 0
bit_and-zero_below n zero h = zero-bit_and 0
bit_and-zero_below zero (suc a) h = absurd (omega arith)
bit_and-zero_below (suc n) (suc a) h =
    omega (arith, bit_and-halves (suc a) 0, bit_and-zero_below n (suc a / 2) (omega arith))

abbrev mask : ℕ → ℕ
mask zero = 0
mask (suc k) = mask k * 2 + 1

abbrev low_bits : ℕ → ℕ → ℕ
low_bits zero a = 0
low_bits (suc k) a = low_bits k (a / 2) * 2 + a % 2

bit_and-mask : (k a : ℕ) → bit_and a (mask k) ≡ low_bits k a
bit_and-mask zero a = bit_and-zero_below a a (omega arith)
bit_and-mask (suc k) a =
    let half : (mask k * 2 + 1) / 2 ≡ mask k = omega arith in
    omega
      (arith, bit_and-halves a (mask k * 2 + 1), ap (bit_and (a / 2)) half, bit_and-mask k (a / 2))

pub low_byte : (a : ℕ) → bit_and a 0xff ≡ a % 256
low_byte a = omega (arith, bit_and-mask 8 a)

pub low_seven_bits : (a : ℕ) → bit_and a 0x7f ≡ a % 128
low_seven_bits a = omega (arith, bit_and-mask 7 a)

pub low_bit : (a : ℕ) → bit_and a 1 ≡ a % 2
low_bit a = omega (arith, bit_and-mask 1 a)

-- `^` with a mask of low bits, and with none.
differ_zero : (x : ℕ) → differ x 0 ≡ x
differ_zero zero = refl
differ_zero (suc x) = refl

differ_one : (x : ℕ) → x ≤ 1 → differ x 1 ≡ 1 - x
differ_one zero h = refl
differ_one (suc zero) h = refl
differ_one (suc (suc x)) h = absurd (omega arith)

abbrev xor_digits : ℕ → ℕ → ℕ → ℕ
xor_digits = digits (λ b. b) differ

xor_digits_enough : (n k a b : ℕ) → a ≤ n → n ≤ k → xor_digits k a b ≡ xor_digits n a b
xor_digits_enough n zero zero b p q = ground arith
xor_digits_enough zero (suc k) zero b p q = refl
xor_digits_enough (suc n) (suc k) zero b p q = refl
xor_digits_enough zero k (suc a) b p q = absurd (omega arith)
xor_digits_enough (suc n) zero (suc a) b p q = absurd (omega arith)
xor_digits_enough (suc n) (suc k) (suc a) b p q =
    rw (xor_digits_enough n k (suc a / 2) (b / 2) (omega arith) (omega arith))

zero-bit_xor : (b : ℕ) → bit_xor 0 b ≡ b
zero-bit_xor b = bit_xor-bitwise 0 b

bit_xor-halves : (a b : ℕ) → bit_xor a b ≡ bit_xor (a / 2) (b / 2) * 2 + differ (a % 2) (b % 2)
bit_xor-halves zero b = omega (arith, zero-bit_xor b, zero-bit_xor (b / 2))
bit_xor-halves (suc a) b = omega (
  arith,
  bit_xor-bitwise (suc a) b,
  bit_xor-bitwise (suc a / 2) (b / 2),
  xor_digits_enough (suc a / 2) a (suc a / 2) (b / 2) (omega arith) (omega arith),
)

bit_xor-zero_below : (n a : ℕ) → a ≤ n → bit_xor a 0 ≡ a
bit_xor-zero_below n zero h = zero-bit_xor 0
bit_xor-zero_below zero (suc a) h = absurd (omega arith)
bit_xor-zero_below (suc n) (suc a) h = omega (
  arith,
  bit_xor-halves (suc a) 0,
  bit_xor-zero_below n (suc a / 2) (omega arith),
  differ_zero (suc a % 2),
)

pub bit_xor-zero : (a : ℕ) → bit_xor a 0 ≡ a
bit_xor-zero a = bit_xor-zero_below a a (omega arith)

bit_xor-mask : (k a : ℕ) → a ≤ mask k → bit_xor a (mask k) ≡ mask k - a
bit_xor-mask zero a h = omega (arith, bit_xor-zero_below a a (omega arith))
bit_xor-mask (suc k) a h =
    let half : (mask k * 2 + 1) / 2 ≡ mask k = omega arith in
    omega (
      arith,
      bit_xor-halves a (mask k * 2 + 1),
      ap (bit_xor (a / 2)) half,
      bit_xor-mask k (a / 2) (omega arith),
      ap (differ (a % 2)) (let odd : (mask k * 2 + 1) % 2 ≡ 1 = omega arith in odd),
      differ_one (a % 2) (omega arith),
    )

pub flip_bits : (a : ℕ) → a < 2 ^ 64 → bit_xor a 0xffff_ffff_ffff_ffff ≡ 0xffff_ffff_ffff_ffff - a
flip_bits a h = bit_xor-mask 64 a (omega arith)
