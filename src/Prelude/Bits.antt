-- ===== src/Prelude/Bits.antt =====
-- `x & (2 ^ k - 1)` is `x % 2 ^ k`, for every width.
use Prim.Native.Nat.{
  ℕ, zero, suc, ◌+◌, ◌-◌, ◌*◌, ◌/◌, ◌%◌, ◌^◌, ◌≤◌, ◌<◌, min, bit_and, digits, bit_and-bitwise,
}
use mathlib.Core.Path.{◌≡◌, refl, ap, ◌∙◌}
use native.Mathlib.Omega.{arith}
use native.Mathlib.Nat.{
  pow-suc, one-le-pow, mul-one, div-one, mul_assoc, div-div-eq-div-mul, mul_comm,
}

-- What the native operation computes, with the given number of steps to go.
abbrev low_bits : ℕ → ℕ → ℕ → ℕ
low_bits steps left right = digits (λ rest. zero) min steps left right

-- A step beyond those that `left` needs adds nothing.
one_more :
    (steps left right : ℕ)
    → left ≤ steps
    → low_bits (suc steps) left right ≡ low_bits steps left right
one_more zero (suc left) right h = absurd (omega arith)
one_more zero zero right h = refl
one_more (suc steps) zero right h = refl
one_more (suc steps) (suc left) right h =
    omega (arith, one_more steps (suc left / 2) (right / 2) (omega arith))

enough_steps :
    (extra steps left right : ℕ)
    → steps ≡ extra + left
    → low_bits steps left right ≡ low_bits left left right
enough_steps zero steps left right e = ap (λ (n : ℕ). low_bits n left right) (omega arith)
enough_steps (suc extra) zero left right e = absurd (omega arith)
enough_steps (suc extra) (suc steps) left right e =
    one_more steps left right (omega arith) ∙ enough_steps extra steps left right (omega arith)

none_below : (y : ℕ) → bit_and 0 y ≡ 0
none_below y = bit_and-bitwise 0 y

-- The lowest bit of a conjunction, and the others.
and_halves : (x y : ℕ) → bit_and x y ≡ min (x % 2) (y % 2) + 2 * bit_and (x / 2) (y / 2)
and_halves zero y = omega (arith, none_below y, none_below (y / 2))
and_halves (suc x) y =
    let half = suc x / 2 in
    let enough = enough_steps (x - half) x half (y / 2) (omega arith) in
    omega (arith, bit_and-bitwise (suc x) y, bit_and-bitwise half (y / 2), enough)

and_none : (bound x : ℕ) → x ≤ bound → bit_and x 0 ≡ 0
and_none zero (suc x) h = absurd (omega arith)
and_none bound zero h = refl
and_none (suc bound) (suc x) h =
    let rest = and_none bound (suc x / 2) (omega arith) in omega (arith, and_halves (suc x) 0, rest)

mod_double : (m x : ℕ) → 0 < m → x % (m * 2) ≡ x / 2 % m * 2 + x % 2
mod_double m x h = grind arith

mask_half : (m : ℕ) → 1 ≤ m → ((m * 2 - 1) / 2 ≡ m - 1) × ((m * 2 - 1) % 2 ≡ 1)
mask_half m h = omega arith

pub pow-pos : (k : ℕ) → 1 ≤ 2 ^ k
pow-pos k = one-le-pow k 2 (omega arith)

-- Masking by `2 ^ k - 1` is the remainder by `2 ^ k`.
pub bit_and-mask : (k x : ℕ) → bit_and x (2 ^ k - 1) ≡ x % 2 ^ k
bit_and-mask zero x = omega (arith, and_none x x (omega arith))
bit_and-mask (suc k) x = rw (pow-suc 2 k) (
    and_halves x (2 ^ k * 2 - 1)
    ∙ rw
        (
          (mask_half (2 ^ k) (pow-pos k)).0,
          (mask_half (2 ^ k) (pow-pos k)).1,
          bit_and-mask k (x / 2),
        )
        (omega (arith, mod_double (2 ^ k) x (pow-pos k))))

bit_and_even : (x m : ℕ) → bit_and x (m * 2) ≡ bit_and (x / 2) m * 2
bit_and_even x m = and_halves x (m * 2) ∙ rw (half_even m) (omega arith)
  where
    half_even : (n : ℕ) → n * 2 / 2 ≡ n
    half_even n = omega arith

-- Masking by a block of ones that starts at bit `k` looks only at the bits from `k` on.
pub bit_and-shift : (k x m : ℕ) → bit_and x (m * 2 ^ k) ≡ bit_and (x / 2 ^ k) m * 2 ^ k
bit_and-shift zero x m = rw (mul-one, div-one, mul-one)
bit_and-shift (suc k) x m =
    rw (pow-suc 2 k, ← mul_assoc)
      (bit_and_even x (m * 2 ^ k)
        ∙ rw (bit_and-shift k (x / 2) m, div-div-eq-div-mul x 2 (2 ^ k), mul_comm (2 ^ k) 2)
            (omega arith))

-- the bit at a position
abbrev pub bit_at : ℕ → ℕ → ℕ
bit_at zero x = x % 2
bit_at (suc k) x = bit_at k (x / 2)

-- A conjunction has the bits that both sides have.
pub bit_at-bit_and : (k x y : ℕ) → bit_at k (bit_and x y) ≡ min (bit_at k x) (bit_at k y)
bit_at-bit_and zero x y = omega (arith, and_halves x y)
bit_at-bit_and (suc k) x y = ap (bit_at k) half ∙ bit_at-bit_and k (x / 2) (y / 2)
  where
    half : bit_and x y / 2 ≡ bit_and (x / 2) (y / 2)
    half = omega (arith, and_halves x y)
