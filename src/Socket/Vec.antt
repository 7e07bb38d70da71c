-- ===== src/Socket/Vec.antt =====
-- What src/device/socket/connectionmanager.rs uses of `Vec`: the first match, and `swap_remove`.
use virtio_drivers_and_devic.Prelude.{
  ℕ, zero, suc, ◌+◌, ◌-◌, ◌<◌, ◌≡◌, ◌⊎◌, inl, inr, refl, sym, arith, Bool, true, false, Bool-cases,
  Option, none, some, List, [], ◌∷◌, ◌++◌, length, get_elem?, set, if◌then◌else◌, ◌==◌, ltb,
  length-set, ap, ◌∙◌, lt→ltb,
}

-- the first of a match here and of those behind
abbrev pub first_of : Bool → Option ℕ → Option ℕ
first_of true rest = some 0
first_of false none = none
first_of false (some i) = some (suc i)

first_of-some :
    (b : Bool) (r : Option ℕ) (i : ℕ)
    → first_of b r ≡ some i
    → ((b ≡ true) × (i ≡ 0)) ⊎ ((b ≡ false) × ((j : ℕ) × (i ≡ suc j) × (r ≡ some j)))
first_of-some true r i h = inl (refl, ground arith)
first_of-some false none i h = absurd (ground arith)
first_of-some false (some j) i h = inr (refl, (j, ground arith, refl))

first_of-none : (b : Bool) (r : Option ℕ) → first_of b r ≡ none → (b ≡ false) × (r ≡ none)
first_of-none true r h = absurd (ground arith)
first_of-none false none h = (refl, refl)
first_of-none false (some j) h = absurd (ground arith)

suc-sub-one : (n : ℕ) → suc n - 1 ≡ n
suc-sub-one n = omega arith

-- where an element was before the one at `i` was removed from a list of `n`
abbrev pub before_removal : ℕ → ℕ → ℕ → ℕ
before_removal n i j = if j == i then n - 1 else j

module _ {ℓ} {A : Type ℓ} where
  -- `iter().enumerate().find(…)`, for the index
  unfoldable pub position : (A → Bool) → List A → Option ℕ
  position p [] = none
  position p (x ∷ xs) = first_of (p x) (position p xs)

  abbrev pub last? : List A → Option A
  last? [] = none
  last? (x ∷ []) = some x
  last? (x ∷ y ∷ ys) = last? (y ∷ ys)

  abbrev pub but_last : List A → List A
  but_last [] = []
  but_last (x ∷ []) = []
  but_last (x ∷ y ∷ ys) = x ∷ but_last (y ∷ ys)

  abbrev pub replaced : Option A → List A → ℕ → Option (List A)
  replaced none xs i = none
  replaced (some z) xs i = if ltb i (length xs) then some (but_last (set xs i z)) else none

  -- `swap_remove`: the last element takes the place of the one removed; `none` is an index out of
  -- range, which panics
  unfoldable pub swap_remove : List A → ℕ → Option (List A)
  swap_remove xs i = replaced (last? xs) xs i

  some_inj : (x y : A) → some x ≡ some y → x ≡ y
  some_inj x y e = cc

  -- An element has an index exactly below the length.
  pub get_elem?-some_lt : (xs : List A) (i : ℕ) (x : A) → get_elem? xs i ≡ some x → i < length xs
  get_elem?-some_lt [] i x h = ground arith
  get_elem?-some_lt (y ∷ ys) zero x h = omega arith
  get_elem?-some_lt (y ∷ ys) (suc i) x h = omega (arith, get_elem?-some_lt ys i x h)

  -- The index found is that of an element with the property.
  pub position-some :
      (p : A → Bool) (xs : List A) (i : ℕ)
      → position p xs ≡ some i
      → (x : A) × (get_elem? xs i ≡ some x) × (p x ≡ true)
  unfolding position
  position-some p [] i h = absurd (ground arith)
  position-some p (y ∷ ys) i h = elim (first_of-some (p y) (position p ys) i h) [
    | inl (t, e) ↦ (y, rw e refl, t)
    | inr (f, (j, e, r)) ↦ let (x, g, t) = position-some p ys j r in (x, rw e g, t)
  ]

  -- Nothing found, nothing there.
  pub position-none :
      (p : A → Bool) (xs : List A)
      → position p xs ≡ none
      → (i : ℕ) (x : A) → get_elem? xs i ≡ some x
      → p x ≡ false
  unfolding position
  position-none p [] h i x e = absurd (ground arith)
  position-none p (y ∷ ys) h zero x e =
      ap p (some_inj x y (sym e)) ∙ (first_of-none (p y) (position p ys) h).0
  position-none p (y ∷ ys) h (suc i) x e =
      position-none p ys (first_of-none (p y) (position p ys) h).1 i x e

  -- What is there is found, or something before it.
  pub position-is_some :
      (p : A → Bool) (xs : List A) (i : ℕ) (x : A)
      → get_elem? xs i ≡ some x
      → p x ≡ true
      → (j : ℕ) × (position p xs ≡ some j)
  position-is_some p xs i x h t = go (position p xs) refl
    where
      go : (r : Option ℕ) → position p xs ≡ r → (j : ℕ) × (position p xs ≡ some j)
      go (some j) e = (j, e)
      go none e = absurd (ground (arith, position-none p xs e i x h, t))

  pub get_elem?-set :
      (xs : List A) (i j : ℕ) (v : A)
      → i < length xs
      → get_elem? (set xs i v) j ≡ (if j == i then some v else get_elem? xs j)
  get_elem?-set [] i j v h = absurd (omega arith)
  get_elem?-set (x ∷ xs) zero zero v h = refl
  get_elem?-set (x ∷ xs) zero (suc j) v h = ground arith
  get_elem?-set (x ∷ xs) (suc i) zero v h = ground arith
  get_elem?-set (x ∷ xs) (suc i) (suc j) v h = ground (arith, get_elem?-set xs i j v)

  pub get_elem?-set_same :
      (xs : List A) (i : ℕ) (v : A) → i < length xs → get_elem? (set xs i v) i ≡ some v
  get_elem?-set_same [] i v h = absurd (omega arith)
  get_elem?-set_same (x ∷ xs) zero v h = refl
  get_elem?-set_same (x ∷ xs) (suc i) v h = get_elem?-set_same xs i v (omega arith)

  -- Of two changes of one place the last counts.
  pub set-set : (xs : List A) (i : ℕ) (u v : A) → set (set xs i u) i v ≡ set xs i v
  set-set [] i u v = refl
  set-set (x ∷ xs) zero u v = refl
  set-set (x ∷ xs) (suc i) u v = ap (λ ys. x ∷ ys) (set-set xs i u v)

  pub get_elem?-append_last :
      (xs : List A) (v : A) → get_elem? (xs ++ (v ∷ [])) (length xs) ≡ some v
  get_elem?-append_last [] v = refl
  get_elem?-append_last (x ∷ xs) v = get_elem?-append_last xs v

  -- What an added element changes.
  pub get_elem?-append_one :
      (xs : List A) (v : A) (j : ℕ) (x : A)
      → get_elem? (xs ++ (v ∷ [])) j ≡ some x
      → (get_elem? xs j ≡ some x) ⊎ ((j ≡ length xs) × (x ≡ v))
  get_elem?-append_one [] v zero x h = inr (refl, ground arith)
  get_elem?-append_one [] v (suc j) x h = ground arith
  get_elem?-append_one (y ∷ ys) v zero x h = inl h
  get_elem?-append_one (y ∷ ys) v (suc j) x h = ground (arith, get_elem?-append_one ys v j x)

  last?-some :
      (x : A) (xs : List A)
      → (z : A) × (last? (x ∷ xs) ≡ some z) × (get_elem? (x ∷ xs) (length xs) ≡ some z)
  last?-some x [] = (x, refl, refl)
  last?-some x (y ∷ ys) = last?-some y ys

  pub get_elem?-but_last :
      (xs : List A) (j : ℕ) (y : A)
      → get_elem? (but_last xs) j ≡ some y
      → (get_elem? xs j ≡ some y) × (j + 1 < length xs)
  get_elem?-but_last [] j y h = absurd (ground arith)
  get_elem?-but_last (x ∷ []) j y h = absurd (ground arith)
  get_elem?-but_last (x ∷ z ∷ zs) zero y h = (h, omega arith)
  get_elem?-but_last (x ∷ z ∷ zs) (suc j) y h =
      let (e, l) = get_elem?-but_last (z ∷ zs) j y h in (e, omega (arith, l))

  length-but_last : (xs : List A) → length (but_last xs) ≡ length xs - 1
  length-but_last [] = refl
  length-but_last (x ∷ []) = refl
  length-but_last (x ∷ y ∷ ys) = omega (arith, length-but_last (y ∷ ys))

  -- `swap_remove` of an element returns, and what is left was there before.
  pub swap_remove-some :
      (xs : List A) (i : ℕ)
      → i < length xs
      → (ys : List A) × (swap_remove xs i ≡ some ys)
        × (length ys ≡ length xs - 1)
        × ((j : ℕ) (y : A)
            → get_elem? ys j ≡ some y
            → (get_elem? xs (before_removal (length xs) i j) ≡ some y) × (j + 1 < length xs))
  unfolding swap_remove
  swap_remove-some [] i h = absurd (omega arith)
  swap_remove-some (x ∷ xs) i h =
      let (z, l, e) = last?-some x xs in
      (
        but_last (set (x ∷ xs) i z),
        rw (l, lt→ltb i (length (x ∷ xs)) h) refl,
        length-but_last (set (x ∷ xs) i z) ∙ ap (λ (n : ℕ). n - 1) (length-set (x ∷ xs) i z),
        λ j y g. moved z e j y (get_elem?-but_last (set (x ∷ xs) i z) j y g),
      )
    where
      moved :
          (z : A)
          → get_elem? (x ∷ xs) (length xs) ≡ some z
          → (j : ℕ) (y : A)
          → (get_elem? (set (x ∷ xs) i z) j ≡ some y) × (j + 1 < length (set (x ∷ xs) i z))
          → (get_elem? (x ∷ xs) (before_removal (length (x ∷ xs)) i j) ≡ some y)
            × (j + 1 < length (x ∷ xs))
      moved z e j y (g, l) = elim (Bool-cases (j == i)) [
        | inl t ↦ (
          rw (t, suc-sub-one (length xs))
              (e ∙ sym (get_elem?-set (x ∷ xs) i j z h ∙ rw t refl) ∙ g),
          omega (arith, l, length-set (x ∷ xs) i z),
        )
        | inr f ↦ (
          rw f (sym (get_elem?-set (x ∷ xs) i j z h ∙ rw f refl) ∙ g),
          omega (arith, l, length-set (x ∷ xs) i z),
        )
      ]
