-- ===== src/Transport/Pci/Regions.antt =====
-- The parts of a BAR that a VirtIO capability names: `get_bar_region` of src/transport/pci.rs.
use virtio_drivers_and_devic.Prelude.{
  ◌⊎◌, ℕ, ◌+◌, ◌/◌, ◌%◌, ◌^◌, ◌<◌, ◌≤◌, ◌≡◌, inl, inr, ◌==◌, ◌||◌, not, refl, true, arith, ltb,
  Bool, if◌then◌else◌, Bool-cases, Option, some, none,
}
use virtio_drivers_and_devic.Error.{Cmd, Run, and_then, ok, err, panic, ◌>>=◌, ◌>>◌, pure, assert}
use virtio_drivers_and_devic.Transport.Pci.{DeviceFunction, ConfigurationAccess}
use virtio_drivers_and_devic.Transport.Pci.Bars.{
  Checked, valid, invalid_bar_type, BarInfo, memory_address_size, bar_info,
}

-- `VirtioCapabilityInfo`
pub record VirtioCapabilityInfo : Type 0 where
  pub bar : ℕ
  pub offset : ℕ
  pub length : ℕ

-- `VirtioPciError`
pub data VirtioPciError : Type 0 where
  invalid_vendor_id : ℕ → VirtioPciError
  missing_common_config missing_notify_config missing_isr_config : VirtioPciError
  invalid_notify_off_multiplier : ℕ → VirtioPciError
  unexpected_io_bar bar_offset_out_of_range : VirtioPciError
  bar_not_allocated : ℕ → VirtioPciError
  misaligned : ℕ → ℕ → VirtioPciError
  pci_invalid_bar_type : VirtioPciError

-- a result, or such an error
pub data Usable (A : Type 0) : Type 0 where
  usable : A → Usable A
  unusable : VirtioPciError → Usable A

-- `C` is the configuration space and `mmio_phys_to_virt` that of the trait Hal; `overflow_checks`
-- says whether the program was built with them.
module _ (C : ConfigurationAccess) (mmio_phys_to_virt : ℕ → ℕ → ℕ) (overflow_checks : Bool) where
  -- `struct_info.offset + struct_info.length` on `u32`: it panics or wraps around, by the build
  abbrev pub end_of : VirtioCapabilityInfo → Cmd C.State ℕ
  end_of info = do
    assert (not overflow_checks || ltb (info.offset + info.length) (2 ^ 32))
    pure ((info.offset + info.length) % 2 ^ 32)

  -- the alignment check, with the address for the CPU
  abbrev pub aligned : ℕ → ℕ → Usable ℕ
  aligned align vaddr =
      if not (vaddr % align == 0) then unusable (misaligned vaddr align) else usable vaddr

  -- `bar_address as PhysAddr + struct_info.offset as PhysAddr`, on 64 bits
  abbrev pub paddr_of : ℕ → VirtioCapabilityInfo → Cmd C.State ℕ
  paddr_of bar_address info = do
    assert (not overflow_checks || ltb (bar_address + info.offset) (2 ^ 64))
    pure ((bar_address + info.offset) % 2 ^ 64)

  -- the checks of the region against the BAR
  abbrev pub in_memory : ℕ → ℕ → VirtioCapabilityInfo → Option (ℕ × ℕ) → Cmd C.State (Usable ℕ)
  in_memory size align info none = pure (unusable unexpected_io_bar)
  in_memory size align info (some (bar_address, bar_size)) =
      if bar_address == 0 then pure (unusable (bar_not_allocated info.bar)) else do
        region_end ← end_of info
        if ltb bar_size region_end || ltb info.length size
            then pure (unusable bar_offset_out_of_range)
            else do
              paddr ← paddr_of bar_address info
              pure (aligned align (mmio_phys_to_virt paddr info.length))

  abbrev pub in_bar : ℕ → ℕ → VirtioCapabilityInfo → Checked BarInfo → Cmd C.State (Usable ℕ)
  in_bar size align info invalid_bar_type = pure (unusable pci_invalid_bar_type)
  in_bar size align info (valid bar) = in_memory size align info (memory_address_size bar)

  -- `get_bar_region`, for a type of the given size and alignment
  unfoldable pub get_bar_region :
      ℕ → ℕ → DeviceFunction → VirtioCapabilityInfo → Cmd C.State (Usable ℕ)
  get_bar_region size align f info = do bar ← bar_info C f info.bar; in_bar size align info bar

  abbrev pub with_count : ℕ → ℕ → Usable ℕ → Usable (ℕ × ℕ)
  with_count size length (unusable e) = unusable e
  with_count size length (usable vaddr) = usable (vaddr, length / size)

  -- `get_bar_region_slice`: the address, and the number of elements
  unfoldable pub get_bar_region_slice :
      ℕ → ℕ → DeviceFunction → VirtioCapabilityInfo → Cmd C.State (Usable (ℕ × ℕ))
  unfolding get_bar_region
  get_bar_region_slice size align f info = do
    region ← get_bar_region size align f info
    pure (with_count size info.length region)

  -- A region that is usable lies within a memory BAR with an address, holds a value of the type,
  -- and is aligned for it.
  abbrev pub Inside :
      ℕ → ℕ → VirtioCapabilityInfo → Run C.State (Checked BarInfo) → Run C.State (Usable ℕ) → Type 0
  Inside size align info bar (ok (usable vaddr) s) =
      (b : BarInfo) × (address bar_size : ℕ) × (bar ≡ ok (valid b) s)
      × (memory_address_size b ≡ some (address, bar_size))
      × (0 < address)
      × (info.offset + info.length ≤ bar_size)
      × (size ≤ info.length)
      × (vaddr ≡ mmio_phys_to_virt ((address + info.offset) % 2 ^ 64) info.length)
      × (vaddr % align ≡ 0)
  Inside size align info bar _ = Unit {0}

  -- The build has overflow checks, or the capability ends below `2 ^ 32`.
  abbrev pub SumIsExact : VirtioCapabilityInfo → Type 0
  SumIsExact info = (overflow_checks ≡ true) ⊎ (info.offset + info.length < 2 ^ 32)

  sum_exact :
      (info : VirtioCapabilityInfo)
      → SumIsExact info
      → (not overflow_checks || ltb (info.offset + info.length) (2 ^ 32)) ≡ true
      → (info.offset + info.length) % 2 ^ 32 ≡ info.offset + info.length
  sum_exact info (inl on) h = ground (arith, on, h)
  sum_exact info (inr small) h = omega (arith, small)

  in_memory-Inside :
      (size align : ℕ) (info : VirtioCapabilityInfo) (b : BarInfo) (s : C.State)
      (m : Option (ℕ × ℕ))
      → memory_address_size b ≡ m
      → SumIsExact info
      → Inside size align info (ok (valid b) s) (in_memory size align info m s)
  in_memory-Inside size align info b s none e x = tt
  in_memory-Inside size align info b s (some (address, bar_size)) e x =
      elim (Bool-cases (address == 0)) [
        | inl zero_address ↦ rw zero_address tt
        | inr there ↦
            elim (Bool-cases (not overflow_checks || ltb (info.offset + info.length) (2 ^ 32))) [
              | inr overflow ↦ rw (there, overflow) tt
              | inl fits ↦
                  elim (Bool-cases
                    (ltb bar_size ((info.offset + info.length) % 2 ^ 32) || ltb info.length size)) [
                      | inl out ↦ rw (there, fits, out) tt
                      | inr inside ↦
                          elim (Bool-cases
                            (not overflow_checks || ltb (address + info.offset) (2 ^ 64))) [
                              | inr beyond ↦ rw (there, fits, inside, beyond) tt
                              | inl below ↦
                                  let vaddr =
                                    mmio_phys_to_virt ((address + info.offset) % 2 ^ 64)
                                      info.length in
                                  elim (Bool-cases (vaddr % align == 0)) [
                                    | inr off ↦ rw (there, fits, inside, below, off) tt
                                    | inl on ↦
                                        rw (there, fits, inside, below, on)
                                          (
                                            b,
                                            address,
                                            bar_size,
                                            refl,
                                            e,
                                            ground arith,
                                            ground (arith, sum_exact info x fits),
                                            ground arith,
                                            refl,
                                            ground arith,
                                          )
                                  ]
                            ]
                    ]
            ]
      ]

  -- In a build with overflow checks, or for a capability whose offset and length add up to less
  -- than `2 ^ 32`, and whatever the registers hold, a region that `get_bar_region` gives, for a
  -- type of the given size and alignment, lies within the memory BAR that `bar_info` reports, which
  -- has an address; it is long enough for the type, at the 64-bit sum of the address and the
  -- offset, and aligned for the type.
  pub get_bar_region-Inside :
      (size align : ℕ) (f : DeviceFunction) (info : VirtioCapabilityInfo) (s : C.State)
      → SumIsExact info
      → Inside size align info (bar_info C f info.bar s) (get_bar_region size align f info s)
  unfolding get_bar_region
  get_bar_region-Inside size align f info s x = go (bar_info C f info.bar s)
    where
      go :
          (r : Run C.State (Checked BarInfo))
          → Inside size align info r (and_then r (in_bar size align info))
      go (ok invalid_bar_type t) = tt
      go (ok (valid b) t) = in_memory-Inside size align info b t (memory_address_size b) refl x
      go (err e t) = tt
      go panic = tt
