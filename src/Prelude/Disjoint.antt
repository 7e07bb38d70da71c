-- ===== src/Prelude/Disjoint.antt =====
-- `a << k | b` is a sum where `b` is below `2 ^ k`, for every width.
use Prim.Native.Nat.{
  ℕ, zero, suc, ◌+◌, ◌-◌, ◌*◌, ◌/◌, ◌%◌, ◌^◌, ◌≤◌, ◌<◌, max, bit_or, digits, bit_or-bitwise,
}
use mathlib.Core.Path.{◌≡◌, ap, ◌∙◌}
use native.Mathlib.Omega.{arith}
use native.Mathlib.Nat.{pow-suc, mul-one, mul_assoc}

-- What the native operation computes, with the given number of steps to go.
abbrev or_bits : ℕ → ℕ → ℕ → ℕ
or_bits steps left right = digits (λ rest. rest) max steps left right

-- A step beyond those that `left` needs adds nothing.
one_more :
    (steps left right : ℕ)
    → left ≤ steps
    → or_bits (suc steps) left right ≡ or_bits steps left right
one_more zero (suc left) right h = absurd (omega arith)
one_more zero zero right h = omega arith
one_more (suc steps) zero right h = omega (arith, one_more steps zero (right / 2) (omega arith))
one_more (suc steps) (suc left) right h =
    omega (arith, one_more steps (suc left / 2) (right / 2) (omega arith))

enough_steps :
    (extra steps left right : ℕ)
    → steps ≡ extra + left
    → or_bits steps left right ≡ or_bits left left right
enough_steps zero steps left right e = ap (λ (n : ℕ). or_bits n left right) (omega arith)
enough_steps (suc extra) zero left right e = absurd (omega arith)
enough_steps (suc extra) (suc steps) left right e =
    one_more steps left right (omega arith) ∙ enough_steps extra steps left right (omega arith)

-- The lowest bit of a disjunction, and the others.
or_halves : (x y : ℕ) → bit_or x y ≡ max (x % 2) (y % 2) + 2 * bit_or (x / 2) (y / 2)
or_halves zero y = omega (arith, bit_or-bitwise 0 y, bit_or-bitwise 0 (y / 2))
or_halves (suc x) y =
    let half = suc x / 2 in
    let enough = enough_steps (x - half) x half (y / 2) (omega arith) in
    omega (arith, bit_or-bitwise (suc x) y, bit_or-bitwise half (y / 2), enough)

or_zero : (bound x : ℕ) → x ≤ bound → bit_or x 0 ≡ x
or_zero zero (suc x) h = absurd (omega arith)
or_zero bound zero h = omega (arith, bit_or-bitwise 0 0)
or_zero (suc bound) (suc x) h =
    let rest = or_zero bound (suc x / 2) (omega arith) in omega (arith, or_halves (suc x) 0, rest)

or_even : (x y : ℕ) → bit_or (x * 2) y ≡ y % 2 + 2 * bit_or x (y / 2)
or_even x y = or_halves (x * 2) y ∙ rw (half_even x) (omega arith)
  where
    half_even : (n : ℕ) → n * 2 / 2 ≡ n
    half_even n = omega arith

-- A number below `2 ^ k` fills the bits that a shift by `k` leaves empty.
pub bit_or-shift : (k x y : ℕ) → y < 2 ^ k → bit_or (x * 2 ^ k) y ≡ x * 2 ^ k + y
bit_or-shift zero x y h =
    rw (mul-one) (ap (bit_or x) (omega arith) ∙ or_zero x x (omega arith) ∙ omega arith)
bit_or-shift (suc k) x y h =
    let rest = bit_or-shift k x (y / 2) (omega (arith, h, pow-suc 2 k)) in
    rw (pow-suc 2 k, ← mul_assoc) (or_even (x * 2 ^ k) y ∙ omega (arith, rest))
