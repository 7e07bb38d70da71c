-- ===== src/Queue/Valid.antt =====
-- When a `VirtQueue` of src/queue.rs without indirect descriptors is well formed, given the free
-- slots and the requests in flight. Nothing of it speaks of memory that the device writes, but for
-- the size of the rings.
use virtio_drivers_and_devic.Prelude.{
  ◌≢◌, ◌≤◌, suc, refl, ap, ◌∙◌, length-append, arith, count-append, ℕ, ◌+◌, ◌^◌, ◌<◌, ◌≡◌, List, [],
  ◌∷◌, ◌++◌, false, length, count, ltb, if◌then◌else◌,
}
use virtio_drivers_and_devic.Queue.Descriptor.{Descriptor}
use virtio_drivers_and_devic.Queue.State.{VirtQueue}
use virtio_drivers_and_devic.Queue.Chain.{at, Linked, Item, slots, Posted, Posted-frame}

-- the chain of a request that the device has not returned
pub record Flight : Type 0 where
  pub first : Item
  pub others : List Item

abbrev pub chain : Flight → List Item
chain f = f.first ∷ f.others

-- what `add` returned for it
abbrev pub token : Flight → ℕ
token f = f.first.slot

abbrev pub flight_slots : List Flight → List ℕ
flight_slots [] = []
flight_slots (f ∷ fs) = slots (chain f) ++ flight_slots fs

abbrev pub AllPosted : List Descriptor → List Flight → Type 0
AllPosted ds [] = Unit
AllPosted ds (f ∷ fs) = Posted ds (chain f) × AllPosted ds fs

pub record IsValid (q : VirtQueue) (free : List ℕ) (flights : List Flight) : Type 0 where
  pub width : ℕ
  pub size_pow : q.size ≡ 2 ^ width
  pub size_small : q.size < 2 ^ 16
  pub shadow_length : length q.desc_shadow ≡ q.size
  pub desc_length : length q.desc ≡ q.size
  pub avail_length : length q.avail.ring ≡ q.size
  pub used_length : length q.used.ring ≡ q.size
  pub direct : q.indirect ≡ false
  pub free_linked : Linked q.desc_shadow q.free_head free
  -- each slot is free or in one flight, and in one place
  pub owned :
      (j : ℕ) → count j free + count j (flight_slots flights) ≡ (if ltb j q.size then 1 else 0)
  pub counted : q.num_used + length free ≡ q.size
  pub in_use : q.num_used ≡ length (flight_slots flights)
  pub posted : AllPosted q.desc_shadow flights

-- Chains in flight survive a change of other slots.
pub AllPosted-frame :
    (ds ds' : List Descriptor) (fs : List Flight)
    → length ds' ≡ length ds
    → ((j : ℕ) → count j (flight_slots fs) ≢ 0 → at ds' j ≡ at ds j)
    → AllPosted ds fs
    → AllPosted ds' fs
AllPosted-frame ds ds' [] n same p = tt
AllPosted-frame ds ds' (f ∷ fs) n same (p, ps) = (
  Posted-frame ds ds' n (chain f)
      (λ j c. same j (omega (arith, c, count-append j (slots (chain f)) (flight_slots fs)))) p,
  AllPosted-frame ds ds' fs n
      (λ j c. same j (omega (arith, c, count-append j (slots (chain f)) (flight_slots fs)))) ps,
)

-- A slot with an owner lies in the table.
pub owned_inside : (j size n : ℕ) → n ≡ (if ltb j size then 1 else 0) → n ≢ 0 → j < size
owned_inside j size n e h = ground arith

pub owned_once : (j size n : ℕ) → n ≡ (if ltb j size then 1 else 0) → n ≤ 1
owned_once j size n e = ground arith

pub length-slots : (xs : List Item) → length (slots xs) ≡ length xs
length-slots [] = refl
length-slots (x ∷ xs) = ap suc (length-slots xs)

-- A flight among others: what it owns, and what is left without it.
module _ (f : Flight) (after : List Flight) where
  pub count-flight :
      (before : List Flight) (j : ℕ)
      → count j (flight_slots (before ++ (f ∷ after)))
        ≡ count j (slots (chain f)) + count j (flight_slots (before ++ after))
  count-flight [] j = count-append j (slots (chain f)) (flight_slots after)
  count-flight (g ∷ gs) j = omega (
    arith,
    count-flight gs j,
    count-append j (slots (chain g)) (flight_slots (gs ++ (f ∷ after))),
    count-append j (slots (chain g)) (flight_slots (gs ++ after)),
  )

  pub length-flight :
      (before : List Flight)
      → length (flight_slots (before ++ (f ∷ after)))
        ≡ length (chain f) + length (flight_slots (before ++ after))
  length-flight [] =
      length-append (slots (chain f)) (flight_slots after)
      ∙ ap (λ (n : ℕ). n + length (flight_slots after)) (length-slots (chain f))
  length-flight (g ∷ gs) = omega (
    arith,
    length-flight gs,
    length-append (slots (chain g)) (flight_slots (gs ++ (f ∷ after))),
    length-append (slots (chain g)) (flight_slots (gs ++ after)),
  )

  pub AllPosted-flight :
      (ds : List Descriptor) (before : List Flight)
      → AllPosted ds (before ++ (f ∷ after))
      → Posted ds (chain f) × AllPosted ds (before ++ after)
  AllPosted-flight ds [] p = p
  AllPosted-flight ds (g ∷ gs) (p, ps) =
      let (here, rest) = AllPosted-flight ds gs ps in (here, (p, rest))
