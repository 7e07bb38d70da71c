-- ===== src/Prelude/Slices.antt =====
-- Slices of Rust as lists: ranges that panic (`none`) when out of bounds, and their elements.
use Prim.Native.Nat.{ℕ, zero, suc, ◌+◌, ◌-◌, ◌≤◌, ◌<◌}
use mathlib.Core.Path.{◌≡◌, refl, ap, ap₂}
use mathlib.Core.Bool.{◌&&◌}
use mathlib.Core.List.{List, [], ◌∷◌, ◌++◌}
use mathlib.Core.Option.{Option, none, some}
use native.Mathlib.Omega.{arith}
use virtio_drivers_and_devic.Prelude.Tests.{leb, ltb, if◌then◌else◌}
use virtio_drivers_and_devic.Prelude.Lists.{
  length, get_or, take, drop, length-take, length-drop, length-append,
}

module _ {ℓ} {A : Type ℓ} where
  -- `xs[from..to]`
  abbrev pub slice : List A → ℕ → ℕ → Option (List A)
  slice xs from to =
      if leb from to && leb to (length xs) then some (take (to - from) (drop from xs)) else none

  -- `xs` with `src` written over it from `at` on
  abbrev pub splice : List A → ℕ → List A → List A
  splice xs at src = take at xs ++ (src ++ drop (at + length src) xs)

  -- `xs[from..to].copy_from_slice(src)`
  abbrev pub copy_from_slice : List A → ℕ → ℕ → List A → Option (List A)
  copy_from_slice xs from to src =
      if leb from to
        && leb to (length xs)
        && (leb (length src) (to - from) && leb (to - from) (length src))
      then some (splice xs from src)
      else none

  pub get_or-append :
      (xs ys : List A) (i : ℕ) (d : A)
      → get_or (xs ++ ys) i d
        ≡ (if ltb i (length xs) then get_or xs i d else get_or ys (i - length xs) d)
  get_or-append [] ys i d = ground arith
  get_or-append (x ∷ xs) ys zero d = ground arith
  get_or-append (x ∷ xs) ys (suc i) d = ground (arith, get_or-append xs ys i d)

  pub get_or-take :
      (n : ℕ) (xs : List A) (i : ℕ) (d : A)
      → get_or (take n xs) i d ≡ (if ltb i n then get_or xs i d else d)
  get_or-take zero xs i d = ground arith
  get_or-take (suc n) [] i d = ground arith
  get_or-take (suc n) (x ∷ xs) zero d = ground arith
  get_or-take (suc n) (x ∷ xs) (suc i) d = ground (arith, get_or-take n xs i d)

  pub get_or-drop :
      (n : ℕ) (xs : List A) (i : ℕ) (d : A) → get_or (drop n xs) i d ≡ get_or xs (n + i) d
  get_or-drop zero xs i d = ap (λ j. get_or xs j d) (omega arith)
  get_or-drop (suc n) [] i d = refl
  get_or-drop (suc n) (x ∷ xs) i d = ground (arith, get_or-drop n xs i d)

module _ {A : Type 0} where
  pub length-splice :
      (xs : List A) (at : ℕ) (src : List A)
      → at + length src ≤ length xs
      → length (splice xs at src) ≡ length xs
  length-splice xs at src h = omega (
    arith,
    length-append (take at xs) (src ++ drop (at + length src) xs),
    length-append src (drop (at + length src) xs),
    length-take at xs,
    length-drop (at + length src) xs,
  )

  pub get_or-splice :
      (xs : List A) (at : ℕ) (src : List A) (i : ℕ) (d : A)
      → at + length src ≤ length xs
      → get_or (splice xs at src) i d
        ≡ (if leb at i && ltb i (at + length src) then get_or src (i - at) d else get_or xs i d)
  get_or-splice xs at src i d h = ground (
    arith,
    get_or-append (take at xs) (src ++ drop (at + length src) xs) i d,
    get_or-append src (drop (at + length src) xs) (i - at) d,
    get_or-take at xs i d,
    get_or-drop (at + length src) xs (i - at - length src) d,
    length-take at xs,
  )

  -- Lists of one length with the same elements are equal.
  pub list_ext :
      (xs ys : List A) (d : A)
      → length xs ≡ length ys
      → ((i : ℕ) → i < length xs → get_or xs i d ≡ get_or ys i d)
      → xs ≡ ys
  list_ext [] [] d e h = refl
  list_ext [] (y ∷ ys) d e h = absurd (omega arith)
  list_ext (x ∷ xs) [] d e h = absurd (omega arith)
  list_ext (x ∷ xs) (y ∷ ys) d e h =
      ap₂ ◌∷◌ (h 0 (omega arith)) (list_ext xs ys d (omega arith) (λ i p. h (suc i) (omega arith)))

  -- the list of `f 0`, …, `f (n - 1)`
  abbrev pub tabulate : ℕ → (ℕ → A) → List A
  tabulate zero f = []
  tabulate (suc n) f = f 0 ∷ tabulate n (λ i. f (suc i))

  pub length-tabulate : (n : ℕ) (f : ℕ → A) → length (tabulate n f) ≡ n
  length-tabulate zero f = refl
  length-tabulate (suc n) f = ap suc (length-tabulate n (λ i. f (suc i)))

  pub get_or-tabulate :
      (n : ℕ) (f : ℕ → A) (i : ℕ) (d : A) → i < n → get_or (tabulate n f) i d ≡ f i
  get_or-tabulate zero f i d h = absurd (omega arith)
  get_or-tabulate (suc n) f zero d h = refl
  get_or-tabulate (suc n) f (suc i) d h = get_or-tabulate n (λ j. f (suc j)) i d (omega arith)

module _ {A : Type 0} where
  pub slice-some :
      (xs : List A) (from to : ℕ)
      → from ≤ to
      → to ≤ length xs
      → slice xs from to ≡ some (take (to - from) (drop from xs))
  slice-some xs from to h k = ground arith

  pub copy_from_slice-some :
      (xs : List A) (at to : ℕ) (src : List A)
      → to ≡ at + length src
      → to ≤ length xs
      → copy_from_slice xs at to src ≡ some (splice xs at src)
  copy_from_slice-some xs at to src h k = ground arith
