-- ===== src/Socket/ConnectionManager/Valid.antt =====
-- When the connections that src/device/socket/connectionmanager.rs keeps are well formed: each has
-- a ring buffer of the capacity that it tells its peer, and no two have the same ends.
use mathlib.Core.Path.{subst}
use virtio_drivers_and_devic.Prelude.{
  ℕ, ◌+◌, ◌<◌, ◌≡◌, ◌⊎◌, inl, inr, refl, sym, ◌∙◌, arith, Bool-cases, some, List, [], ◌∷◌, ◌++◌,
  length, get_elem?, set, ◌==◌,
}
use virtio_drivers_and_devic.Socket.Vec.{
  get_elem?-some_lt, get_elem?-set, get_elem?-append_one, swap_remove, swap_remove-some,
  before_removal, but_last, get_elem?-but_last,
}
use virtio_drivers_and_devic.Socket.Event.{ConnectionInfo}
use virtio_drivers_and_devic.Socket.RingBuffer.Contents
use virtio_drivers_and_devic.Socket.ConnectionManager.{Connection}

pub record Good (capacity : ℕ) (c : Connection) : Type 0 where
  pub valid : Contents.IsValid c.buffer
  pub full_size : length c.buffer.buffer ≡ capacity
  pub announced : c.info.buf_alloc ≡ capacity

abbrev pub SameEnds : ConnectionInfo → ConnectionInfo → Type 0
SameEnds a b = (a.dst.cid ≡ b.dst.cid) × (a.dst.port ≡ b.dst.port) × (a.src_port ≡ b.src_port)

pub record IsValid (capacity : ℕ) (connections : List Connection) : Type 0 where
  pub room : 0 < capacity
  pub each : (i : ℕ) (c : Connection) → get_elem? connections i ≡ some c → Good capacity c
  pub distinct :
      (i j : ℕ) (c d : Connection)
      → get_elem? connections i ≡ some c
      → get_elem? connections j ≡ some d
      → SameEnds c.info d.info
      → i ≡ j

pub []-IsValid : (capacity : ℕ) → 0 < capacity → IsValid capacity []
[]-IsValid capacity h = record {
  room = h;
  each = λ i c e. absurd (ground arith);
  distinct = λ i j c d e₁ e₂ s. absurd (ground arith);
}

some_eq {ℓ} : {A : Type ℓ} (x y : A) → some x ≡ some y → x ≡ y
some_eq x y e = cc

ends_sym : (a b : ConnectionInfo) → SameEnds a b → SameEnds b a
ends_sym a b (p, q, r) = (sym p, sym q, sym r)

ends_trans : (a b c : ConnectionInfo) → SameEnds a b → SameEnds b c → SameEnds a c
ends_trans a b c (p, q, r) (p', q', r') = (p ∙ p', q ∙ q', r ∙ r')

before_removal_inj :
    (n i j k : ℕ) → j + 1 < n → k + 1 < n → before_removal n i j ≡ before_removal n i k → j ≡ k
before_removal_inj n i j k hj hk e = ground arith

before_removal_ne : (n i j : ℕ) → j + 1 < n → ¬ (before_removal n i j ≡ i)
before_removal_ne n i j h e = ground arith

module _ (capacity : ℕ) (cs : List Connection) (v : IsValid capacity cs) where
  -- what stands in a place of the list after a change of the place `i`
  set_cases :
      (i : ℕ) (c' : Connection) (j : ℕ) (d : Connection)
      → i < length cs
      → get_elem? (set cs i c') j ≡ some d
      → ((j ≡ i) × (d ≡ c')) ⊎ (get_elem? cs j ≡ some d)
  set_cases i c' j d h e = elim (Bool-cases (j == i)) [
    | inl t ↦ inl (ground arith, some_eq d c' (sym e ∙ get_elem?-set cs i j c' h ∙ rw t refl))
    | inr f ↦ inr (sym (get_elem?-set cs i j c' h ∙ rw f refl) ∙ e)
  ]

  apart :
      (i : ℕ) (c c' : Connection) (j k : ℕ) (d d' : Connection)
      → get_elem? cs i ≡ some c
      → SameEnds c'.info c.info
      → ((j ≡ i) × (d ≡ c')) ⊎ (get_elem? cs j ≡ some d)
      → ((k ≡ i) × (d' ≡ c')) ⊎ (get_elem? cs k ≡ some d')
      → SameEnds d.info d'.info
      → j ≡ k
  apart i c c' j k d d' e s (inl (a, x)) (inl (b, y)) q = a ∙ sym b
  apart i c c' j k d d' e s (inl (a, x)) (inr y) q =
      a
      ∙ v.distinct i k c d' e y (
          ends_trans c.info c'.info d'.info (ends_sym c'.info c.info s)
            (subst (λ (z : Connection). SameEnds z.info d'.info) x q))
  apart i c c' j k d d' e s (inr x) (inl (b, y)) q =
      v.distinct j i d c x e (
        ends_trans d.info c'.info c.info (subst (λ (z : Connection). SameEnds d.info z.info) y q) s)
      ∙ sym b
  apart i c c' j k d d' e s (inr x) (inr y) q = v.distinct j k d d' x y q

  -- The connections stay well formed when one of them changes, but for its ends.
  pub set-IsValid :
      (i : ℕ) (c c' : Connection)
      → get_elem? cs i ≡ some c
      → Good capacity c'
      → SameEnds c'.info c.info
      → IsValid capacity (set cs i c')
  set-IsValid i c c' e g s = record {
    room = v.room;
    each = λ j d h. elim (set_cases i c' j d (get_elem?-some_lt cs i c e) h) [
      | inl (at_i, same) ↦ rw same g
      | inr other ↦ v.each j d other
    ];
    distinct = λ j k d d' h h' q.
        apart i c c' j k d d' e s (set_cases i c' j d (get_elem?-some_lt cs i c e) h)
          (set_cases i c' k d' (get_elem?-some_lt cs i c e) h') q;
  }

  -- They stay well formed with one more, at the end, whose ends are new.
  pub append-IsValid :
      (c : Connection)
      → Good capacity c
      → ((i : ℕ) (d : Connection) → get_elem? cs i ≡ some d → ¬ SameEnds d.info c.info)
      → IsValid capacity (cs ++ (c ∷ []))
  append-IsValid c g new = record {
    room = v.room;
    each = λ j d h. elim (get_elem?-append_one cs c j d h) [
      | inl old ↦ v.each j d old
      | inr (at_end, same) ↦ rw same g
    ];
    distinct = λ j k d d' h h' q.
        both j k d d' (get_elem?-append_one cs c j d h) (get_elem?-append_one cs c k d' h') q;
  }
    where
      both :
          (j k : ℕ) (d d' : Connection)
          → (get_elem? cs j ≡ some d) ⊎ ((j ≡ length cs) × (d ≡ c))
          → (get_elem? cs k ≡ some d') ⊎ ((k ≡ length cs) × (d' ≡ c))
          → SameEnds d.info d'.info
          → j ≡ k
      both j k d d' (inl x) (inl y) q = v.distinct j k d d' x y q
      both j k d d' (inl x) (inr (b, y)) q =
          absurd (new j d x (subst (λ (z : Connection). SameEnds d.info z.info) y q))
      both j k d d' (inr (a, x)) (inl y) q = absurd (
          new k d' y
            (ends_sym c.info d'.info (subst (λ (z : Connection). SameEnds z.info d'.info) x q)))
      both j k d d' (inr (a, x)) (inr (b, y)) q = a ∙ sym b

  -- They stay well formed without the last.
  pub but_last-IsValid : IsValid capacity (but_last cs)
  but_last-IsValid = record {
    room = v.room;
    each = λ j d h. v.each j d (get_elem?-but_last cs j d h).0;
    distinct = λ j k d d' h h' q.
        v.distinct j k d d' (get_elem?-but_last cs j d h).0 (get_elem?-but_last cs k d' h').0 q;
  }

  -- They stay well formed without one of them.
  pub removal-IsValid :
      (i : ℕ) (c : Connection)
      → get_elem? cs i ≡ some c
      → (rest : List Connection) × (swap_remove cs i ≡ some rest) × IsValid capacity rest
  removal-IsValid i c e =
      let (rest, is, n, before) = swap_remove-some cs i (get_elem?-some_lt cs i c e) in
      (
        rest,
        is,
        record {
          room = v.room;
          each = λ j d h. v.each (before_removal (length cs) i j) d (before j d h).0;
          distinct = λ j k d d' h h' q.
              before_removal_inj (length cs) i j k (before j d h).1 (before k d' h').1 (
                v.distinct (before_removal (length cs) i j) (before_removal (length cs) i k) d d'
                  (before j d h).0 (before k d' h').0 q);
        },
      )

  -- What is left has other ends than what was removed.
  pub removal-Apart :
      (i : ℕ) (c : Connection)
      → get_elem? cs i ≡ some c
      → (rest : List Connection) × (swap_remove cs i ≡ some rest)
        × ((j : ℕ) (d : Connection) → get_elem? rest j ≡ some d → ¬ SameEnds d.info c.info)
  removal-Apart i c e =
      let (rest, is, n, before) = swap_remove-some cs i (get_elem?-some_lt cs i c e) in
      (
        rest,
        is,
        λ j d h same.
            before_removal_ne (length cs) i j (before j d h).1
              (v.distinct (before_removal (length cs) i j) i d c (before j d h).0 e same),
      )
