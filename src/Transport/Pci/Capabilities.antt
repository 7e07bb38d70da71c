-- ===== src/Transport/Pci/Capabilities.antt =====
-- The list of capabilities of a PCI device function in src/transport/pci/bus.rs.
use virtio_drivers_and_devic.Prelude.{
  ℕ, zero, suc, ◌-◌, ◌/◌, ◌%◌, ◌^◌, ◌<◌, ◌≤◌, ◌≡◌, ◌==◌, ◌||◌, not, refl, sym, ap, ◌∙◌, arith, ltb,
  if◌then◌else◌, bit_and, Option, some, none, List, [], ◌∷◌, length,
}
use virtio_drivers_and_devic.Prelude.Bits.{bit_and-mask, bit_and-shift}
use virtio_drivers_and_devic.Transport.Pci.{
  DeviceFunction, ConfigurationAccess, get_status_command, capabilities_list,
}

-- `CapabilityInfo`
pub record CapabilityInfo : Type 0 where
  pub offset : ℕ
  pub id : ℕ
  pub private_header : ℕ

-- the check of the next offset in `CapabilityIterator::next`
unfoldable pub checked_offset : ℕ → Option ℕ
checked_offset next_offset =
    if next_offset == 0
    then none
    else if ltb next_offset 64 || not (bit_and next_offset 3 == 0)
    then none
    else some next_offset

module _ (C : ConfigurationAccess) (f : DeviceFunction) (s : C.State) where
  -- `capabilities_offset`
  unfoldable pub capabilities_offset : Option ℕ
  unfolding get_status_command
  capabilities_offset =
      if bit_and (get_status_command C f s).0 capabilities_list == capabilities_list
      then some (bit_and (C.read_word f 52 s) 252)
      else none

  -- where the capability at an offset leads
  abbrev pub link : ℕ → Option ℕ
  link offset = checked_offset (C.read_word f offset s / 2 ^ 8 % 2 ^ 8)

  -- `CapabilityIterator::next`: the item, and the offset of the next capability
  unfoldable pub next_capability : Option ℕ → Option CapabilityInfo × Option ℕ
  unfolding checked_offset
  next_capability none = (none, none)
  next_capability (some offset) =
      let capability_header = C.read_word f offset s in
      (
        some (record {
          offset = offset;
          id = capability_header % 2 ^ 8;
          private_header = capability_header / 2 ^ 16 % 2 ^ 16;
        }),
        link offset,
      )

  abbrev pub yielded : Option CapabilityInfo → List CapabilityInfo → List CapabilityInfo
  yielded none later = []
  yielded (some item) later = item ∷ later

  -- what the iterator yields in the given number of steps
  unfoldable pub take_from : ℕ → Option ℕ → List CapabilityInfo
  unfolding next_capability
  take_from zero offset = []
  take_from (suc n) offset =
      yielded (next_capability offset).0 (take_from n (next_capability offset).1)

  -- `capabilities`
  unfoldable pub capabilities : ℕ → List CapabilityInfo
  unfolding capabilities_offset take_from
  capabilities n = take_from n capabilities_offset

  none_more : (m : ℕ) → length (take_from m none) ≡ 0
  unfolding take_from next_capability
  none_more zero = refl
  none_more (suc m) = refl

  link-some : (o o' : ℕ) → link o ≡ some o' → (o' < 256) × (o' % 4 ≡ 0)
  unfolding checked_offset
  link-some o o' h = ground (arith, h, bit_and-mask 2 o')

  -- the offsets of the capabilities of the list
  pub data Listed : ℕ → Type 0 where
    first : {o : ℕ} → capabilities_offset ≡ some o → Listed o
    then_next : {o o' : ℕ} → Listed o → link o ≡ some o' → Listed o'

  take_from-Increasing :
      ((o o' : ℕ) → Listed o → link o ≡ some o' → o < o')
      → (n o : ℕ) → Listed o
      → o < 256
      → o % 4 ≡ 0
      → length (take_from n (some o)) ≤ 64 - o / 4
  unfolding take_from next_capability
  take_from-Increasing up zero o l h a = omega arith
  take_from-Increasing up (suc n) o l h a = go (take_from-Increasing up n) (link o) refl
    where
      go :
          ((o' : ℕ)
            → Listed o'
            → o' < 256
            → o' % 4 ≡ 0
            → length (take_from n (some o')) ≤ 64 - o' / 4)
          → (r : Option ℕ) → link o ≡ r
          → suc (length (take_from n (link o))) ≤ 64 - o / 4
      go later none e = rw e (omega (arith, none_more n))
      go later (some o') e =
          let (small, aligned) = link-some o o' e in
          rw e (omega (arith, later o' (then_next l e) small aligned, up o o' l e))

  capabilities_offset-some : (o : ℕ) → capabilities_offset ≡ some o → (o < 256) × (o % 4 ≡ 0)
  unfolding capabilities_offset
  capabilities_offset-some o h = ground (
    arith,
    h,
    bit_and-shift 2 (C.read_word f 52 s) 63,
    bit_and-mask 6 (C.read_word f 52 s / 2 ^ 2),
  )

  -- If each capability of the list that leads to another one leads to one behind it, there are at
  -- most 64 of them, however long they are asked for.
  pub capabilities-Increasing :
      (n : ℕ) → ((o o' : ℕ) → Listed o → link o ≡ some o' → o < o') → length (capabilities n) ≤ 64
  unfolding capabilities
  capabilities-Increasing n up = go capabilities_offset refl
    where
      go : (r : Option ℕ) → capabilities_offset ≡ r → length (take_from n capabilities_offset) ≤ 64
      go none e = rw e (omega (arith, none_more n))
      go (some o) e =
          let (small, aligned) = capabilities_offset-some o e in
          rw e (omega (arith, take_from-Increasing up n o (first e) small aligned))

  -- If the first capability leads back to itself, the iterator is not done after any number of
  -- steps.
  pub capabilities-cyclic :
      (n o : ℕ) → capabilities_offset ≡ some o → link o ≡ some o → length (capabilities n) ≡ n
  unfolding capabilities take_from next_capability
  capabilities-cyclic zero o h e = refl
  capabilities-cyclic (suc n) o h e =
      rw (h, e) (ap suc (ap (λ r. length (take_from n r)) (sym h) ∙ capabilities-cyclic n o h e))
