-- ===== src/Prelude/Count.antt =====
-- How often a number stands in a list; ownership of indices is stated by it.
use Prim.Native.Nat.{ℕ, zero, suc, ◌+◌, ◌≤◌}
use mathlib.Core.Path.{◌≡◌}
use mathlib.Core.List.{List, [], ◌∷◌, ◌++◌}
use native.Mathlib.Omega.{arith}
use virtio_drivers_and_devic.Prelude.Lists.{take, drop}
use virtio_drivers_and_devic.Prelude.Tests.{◌==◌, if◌then◌else◌}

abbrev pub count : ℕ → List ℕ → ℕ
count j [] = 0
count j (i ∷ is) = (if i == j then 1 else 0) + count j is

pub count-append : (j : ℕ) (xs ys : List ℕ) → count j (xs ++ ys) ≡ count j xs + count j ys
count-append j [] ys = omega arith
count-append j (x ∷ xs) ys = ground (arith, count-append j xs ys)

pub count-cons_self : (i : ℕ) (is : List ℕ) → count i (i ∷ is) ≡ suc (count i is)
count-cons_self i is = ground arith

-- A number that a list counts as absent differs from its head, and is absent from its tail.
pub ne_of_count : (j i : ℕ) (is : List ℕ) → count j (i ∷ is) ≡ 0 → (i ≡ j → ⊥) × (count j is ≡ 0)
ne_of_count j i is h = ground arith

pub count-take-le : (j n : ℕ) (xs : List ℕ) → count j (take n xs) ≤ count j xs
count-take-le j zero xs = omega arith
count-take-le j (suc n) [] = omega arith
count-take-le j (suc n) (x ∷ xs) = ground (arith, count-take-le j n xs)

pub count-take-drop :
    (j n : ℕ) (xs : List ℕ) → count j (take n xs) + count j (drop n xs) ≡ count j xs
count-take-drop j zero xs = omega arith
count-take-drop j (suc n) [] = omega arith
count-take-drop j (suc n) (x ∷ xs) = ground (arith, count-take-drop j n xs)
