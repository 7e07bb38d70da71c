-- ===== src/Queue/Chain.antt =====
-- Descriptor chains in a table: the free list, and the chain of a request.
use Prim.Native.Nat.{bit_or}
use virtio_drivers_and_devic.Prelude.{
  sym, ap, ◌∙◌, ◌≤◌, refl, count-cons_self, ℕ, ◌<◌, ◌≡◌, ◌≢◌, List, [], ◌∷◌, length, get_or, arith,
  count,
}
use virtio_drivers_and_devic.Hal.{BufferDirection, driver_to_device, device_to_driver, both}
use virtio_drivers_and_devic.Queue.Descriptor.{
  Descriptor, DescFlags, zeroed, Request, next_flag, remove,
}

abbrev pub at : List Descriptor → ℕ → Descriptor
at ds i = get_or ds i zeroed

-- From `head` the `next` fields lead through the slots `is`, whatever follows the last.
abbrev pub Linked : List Descriptor → ℕ → List ℕ → Type 0
Linked ds head [] = Unit
Linked ds head (i ∷ is) = (head ≡ i) × (i < length ds) × Linked ds (at ds i).next is

-- a slot that holds a request, and the address at which the device finds its buffer
pub record Item : Type 0 where
  pub slot : ℕ
  pub addr : ℕ
  pub request : Request

abbrev pub slots : List Item → List ℕ
slots [] = []
slots (x ∷ xs) = x.slot ∷ slots xs

-- the flag that tells the device to write
abbrev pub write_bit : BufferDirection → DescFlags
write_bit device_to_driver = 2
write_bit _ = 0

-- the descriptor in the slot of `x` describes its buffer, with the given link flag
pub record Holds (ds : List Descriptor) (x : Item) (link : DescFlags) : Type 0 where
  pub inside : x.slot < length ds
  pub addr : (at ds x.slot).addr ≡ x.addr
  pub len : (at ds x.slot).len ≡ x.request.buffer.len
  pub flags : (at ds x.slot).flags ≡ bit_or link (write_bit x.request.direction)

-- where a chain goes on: at its first item, or behind it
abbrev pub start : List Item → ℕ → ℕ
start [] rest = rest
start (x ∷ xs) rest = x.slot

-- a chain under construction: all its items are linked, the last one to `rest`
abbrev pub Open : List Descriptor → List Item → ℕ → Type 0
Open ds [] rest = Unit
Open ds (x ∷ xs) rest =
    Holds ds x next_flag × ((at ds x.slot).next ≡ start xs rest) × Open ds xs rest

-- a finished chain: all items but the last are linked to the next
abbrev pub Posted : List Descriptor → List Item → Type 0
Posted ds [] = Unit
Posted ds (x ∷ []) = Holds ds x 0
Posted ds (x ∷ y ∷ ys) = Holds ds x next_flag × ((at ds x.slot).next ≡ y.slot) × Posted ds (y ∷ ys)

abbrev pub last_slot : ℕ → List Item → ℕ
last_slot last [] = last
last_slot last (x ∷ xs) = last_slot x.slot xs

pub count-here : (i : ℕ) (is : List ℕ) → count i (i ∷ is) ≢ 0
count-here i is = ground arith

pub count-later : (i j : ℕ) (is : List ℕ) → count j is ≢ 0 → count j (i ∷ is) ≢ 0
count-later i j is h = ground arith

module _ (ds ds' : List Descriptor) (same_length : length ds' ≡ length ds) where
  -- Chains survive a change of other slots.
  pub Linked-frame :
      (is : List ℕ) (head : ℕ)
      → ((j : ℕ) → count j is ≢ 0 → at ds' j ≡ at ds j)
      → Linked ds head is
      → Linked ds' head is
  Linked-frame [] head same l = tt
  Linked-frame (i ∷ is) head same (e, h, l) =
      let tail = Linked-frame is (at ds i).next (λ j c. same j (count-later i j is c)) l in
      (e, omega arith, rw (same i (count-here i is)) tail)

  pub Holds-frame :
      (x : Item) (link : DescFlags)
      → at ds' x.slot ≡ at ds x.slot
      → Holds ds x link
      → Holds ds' x link
  Holds-frame x link e h = record {
    inside = omega (arith, h.inside);
    addr = rw e h.addr;
    len = rw e h.len;
    flags = rw e h.flags;
  }

  pub Open-frame :
      (xs : List Item) (rest : ℕ)
      → ((j : ℕ) → count j (slots xs) ≢ 0 → at ds' j ≡ at ds j)
      → Open ds xs rest
      → Open ds' xs rest
  Open-frame [] rest same o = tt
  Open-frame (x ∷ xs) rest same (h, e, o) =
      let here = same x.slot (count-here x.slot (slots xs)) in
      (
        Holds-frame x next_flag here h,
        rw here e,
        Open-frame xs rest (λ j c. same j (count-later x.slot j (slots xs) c)) o,
      )

  pub Posted-frame :
      (xs : List Item)
      → ((j : ℕ) → count j (slots xs) ≢ 0 → at ds' j ≡ at ds j)
      → Posted ds xs
      → Posted ds' xs
  Posted-frame [] same p = tt
  Posted-frame (x ∷ []) same p = Holds-frame x 0 (same x.slot (count-here x.slot [])) p
  Posted-frame (x ∷ y ∷ ys) same (h, e, p) =
      let here = same x.slot (count-here x.slot (slots (y ∷ ys))) in
      (
        Holds-frame x next_flag here h,
        rw here e,
        Posted-frame (y ∷ ys) (λ j c. same j (count-later x.slot j (slots (y ∷ ys)) c)) p,
      )

-- The link flag is the lowest bit, so removing it leaves the write flag.
remove-link :
    (direction : BufferDirection)
    → remove (bit_or next_flag (write_bit direction)) next_flag ≡ bit_or 0 (write_bit direction)
remove-link driver_to_device = refl
remove-link device_to_driver = refl
remove-link both = refl

-- `add_direct` ends a chain by removing the flag from its last descriptor.
abbrev pub end_of : Descriptor → Descriptor
end_of e = record e { flags = remove e.flags next_flag }

pub last_slot-count :
    (x : Item) (xs : List Item) (i : ℕ) → count (last_slot i (x ∷ xs)) (slots (x ∷ xs)) ≢ 0
last_slot-count x [] i = count-here x.slot []
last_slot-count x (y ∷ ys) i = count-later x.slot _ (slots (y ∷ ys)) (last_slot-count y ys x.slot)

pub Posted-end :
    (ds ds' : List Descriptor) (x : Item) (xs : List Item) (rest i : ℕ)
    → length ds' ≡ length ds
    → ((j : ℕ) → count j (slots (x ∷ xs)) ≤ 1)
    → Open ds (x ∷ xs) rest
    → at ds' (last_slot i (x ∷ xs)) ≡ end_of (at ds (last_slot i (x ∷ xs)))
    → ((j : ℕ) → j ≢ last_slot i (x ∷ xs) → at ds' j ≡ at ds j)
    → Posted ds' (x ∷ xs)
Posted-end ds ds' x [] rest i n once (h, e, o) ended same = record {
  inside = omega (arith, h.inside);
  addr = rw ended h.addr;
  len = rw ended h.len;
  flags = rw (ended, h.flags) (remove-link x.request.direction);
}
Posted-end ds ds' x (y ∷ ys) rest i n once (h, e, o) ended same =
    let here = same x.slot (λ p. last_slot-count y ys x.slot (
      sym (ap (λ j. count j (slots (y ∷ ys))) p)
      ∙ omega (arith, once x.slot, count-cons_self x.slot (slots (y ∷ ys))))) in
    (
      Holds-frame ds ds' n x next_flag here h,
      rw here e,
      Posted-end ds ds' y ys rest x.slot n (λ j. omega (arith, once j)) o ended same,
    )
