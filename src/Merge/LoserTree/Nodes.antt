-- ===== src/Merge/LoserTree/Nodes.antt =====
-- The nodes of a perfect binary tree in the heap numbering: the children of `n` are `2 * n` and
-- `2 * n + 1`.
use native.Mathlib.Nat.{mul-le-mul_left, pow-suc, pow-le-pow_right, one-le-pow}
use compactor.Prelude.{
  ℕ, zero, suc, ◌+◌, ◌*◌, ◌^◌, ◌≤◌, ◌<◌, ◌≡◌, refl, ◌⊎◌, inl, inr, arith, Bool-cases, ltb, ltb→lt,
}

-- Node `i` is in the subtree of height `d` below `n`, leaves included.
abbrev pub In : ℕ → ℕ → ℕ → Type 0
In zero n i = i ≡ n
In (suc d) n i = (i ≡ n) ⊎ (In d (2 * n) i ⊎ In d (2 * n + 1) i)

pub double : (n e : ℕ) → n * 2 ^ suc e ≡ 2 * n * 2 ^ e
double n e = grind (arith, pow-suc 2 e)

pub double_next : (n e : ℕ) → (n + 1) * 2 ^ suc e ≡ (2 * n + 1) * 2 ^ e + 2 ^ e
double_next n e = grind (arith, pow-suc 2 e)

pub odd_part : (n e : ℕ) → (2 * n + 1) * 2 ^ e ≡ 2 * n * 2 ^ e + 2 ^ e
odd_part n e = grind arith

pub next_part : (n e : ℕ) → (n + 1) * 2 ^ e ≡ n * 2 ^ e + 2 ^ e
next_part n e = grind arith

Interval : ℕ → ℕ → ℕ → ℕ → Type 0
Interval e d n i = (e ≤ d) × (n * 2 ^ e ≤ i) × (i < (n + 1) * 2 ^ e)

-- The subtree has, at each depth, an interval of nodes.
In-Interval : (d n i : ℕ) → In d n i → (e : ℕ) × Interval e d n i
unfolding Interval
In-Interval zero n i h = (0, (omega arith, omega arith, omega arith))
In-Interval (suc d) n i (inl h) = (0, (omega arith, omega arith, omega arith))
In-Interval (suc d) n i (inr (inl h)) =
    let (e, (l, a, b)) = In-Interval d (2 * n) i h in
    (
      suc e,
      (
        omega arith,
        omega (arith, double n e),
        omega (arith, double_next n e, odd_part n e, next_part (2 * n) e),
      ),
    )
In-Interval (suc d) n i (inr (inr h)) =
    let (e, (l, a, b)) = In-Interval d (2 * n + 1) i h in
    (
      suc e,
      (
        omega arith,
        omega (arith, double n e, odd_part n e),
        omega (arith, double_next n e, next_part (2 * n + 1) e),
      ),
    )

pub In-le : (d n i : ℕ) → In d n i → n ≤ i
unfolding Interval
In-le d n i h = let (e, (l, a, b)) = In-Interval d n i h in grind (arith, one-le-pow e 2)

apart_below : (n i a b : ℕ) → a ≤ b → i < (2 * n + 1) * a → (2 * n + 1) * b ≤ i → ⊥
apart_below n i a b h p q = grind arith

apart_above :
    (n i a b : ℕ) → 1 ≤ n → 1 ≤ b → 2 * b ≤ a → 2 * n * a ≤ i → i < (2 * n + 1 + 1) * b → ⊥
apart_above n i a b pos pos' h p q =
    let m : 2 * n * (2 * b) ≤ 2 * n * a = mul-le-mul_left (2 * n) h in
    let m' : 2 * b ≤ 2 * n * b = grind arith in grind arith

-- The subtrees of two siblings have no node in common.
pub In-siblings : (d n i : ℕ) → 1 ≤ n → In d (2 * n) i → In d (2 * n + 1) i → ⊥
unfolding Interval
In-siblings d n i pos left right =
    let (e, (l, a, b)) = In-Interval d (2 * n) i left in
    let (e', (l', a', b')) = In-Interval d (2 * n + 1) i right in
    elim (Bool-cases (ltb e' e)) [
      | inl h ↦
          let m : 2 ^ suc e' ≤ 2 ^ e = pow-le-pow_right (omega arith) (ltb→lt e' e h) in
          apart_above n i (2 ^ e) (2 ^ e') pos (one-le-pow e' 2 (omega arith))
            (omega (arith, m, pow-suc 2 e')) a b'
      | inr h ↦
          let m : 2 ^ e ≤ 2 ^ e' = pow-le-pow_right (omega arith) (ground arith) in
          apart_below n i (2 ^ e) (2 ^ e') m b a'
    ]

-- The nodes `d` levels below `n` are an interval: those of the children are its halves.
abbrev pub Under : ℕ → ℕ → ℕ → Type 0
Under d n i = (n * 2 ^ d ≤ i) × (i < (n + 1) * 2 ^ d)

pub Under-children : (d n i : ℕ) → Under (suc d) n i → Under d (2 * n) i ⊎ Under d (2 * n + 1) i
Under-children d n i (p, q) = elim (Bool-cases (ltb i ((2 * n + 1) * 2 ^ d))) [
  | inl h ↦ inl (omega (arith, double n d), ltb→lt _ _ h)
  | inr h ↦ inr (ground arith, omega (arith, double_next n d, next_part (2 * n + 1) d))
]

pub In-self : (d n : ℕ) → In d n n
In-self zero n = refl
In-self (suc d) n = inl refl
