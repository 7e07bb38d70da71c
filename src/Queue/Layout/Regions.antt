-- ===== src/Queue/Layout/Regions.antt =====
-- Where the parts of a queue lie in the pages that src/queue.rs allocates for them.
use virtio_drivers_and_devic.Prelude.{
  ℕ, zero, suc, ◌+◌, ◌*◌, ◌/◌, ◌%◌, ◌^◌, ◌≤◌, ◌<◌, ◌≡◌, ◌⊎◌, ◌==◌, refl, false, true, arith, inl,
  inr, Bool-cases, ==→eq, some,
}
use native.Mathlib.Nat.{pow-suc}
use virtio_drivers_and_devic.Prelude.Bits.{pow-pos}
use virtio_drivers_and_devic.Error.{Run, ok, err, dma_error}
use virtio_drivers_and_devic.Hal.{
  Hal, Dma, BufferDirection, dma_new, dma_drop, driver_to_device, device_to_driver, both,
}
use virtio_drivers_and_devic.Memory.{page_size, align_up, pages}
use virtio_drivers_and_devic.Memory.Rounding.{align_up_lem, le_pages}
use virtio_drivers_and_devic.Queue.Layout.{
  VirtQueueLayout, legacy, modern, is_power_below, is_power_of_two, queue_part_sizes, desc_size,
  avail_size, used_size, allocate_legacy, allocate_flexible,
}

-- The table of `n` descriptors, the available ring and the used ring lie apart from one another
-- inside the pages of the layout, the rings at even offsets, and the used ring of a legacy
-- layout at the start of a page.
abbrev pub Placed : ℕ → VirtQueueLayout → Type 0
Placed n (legacy dma avail used) =
    (desc_size n ≤ avail)
    × (avail + avail_size n ≤ used)
    × (used + used_size n ≤ dma.pages * page_size)
    × (avail % 2 ≡ 0)
    × (used % page_size ≡ 0)
Placed n (modern driver device avail) =
    (desc_size n ≤ avail)
    × (avail + avail_size n ≤ driver.pages * page_size)
    × (used_size n ≤ device.pages * page_size)
    × (avail % 2 ≡ 0)

-- A power of 2 is positive, and below its bound.
pub power_small : (bits n : ℕ) → is_power_below bits n ≡ true → (0 < n) × (n < 2 ^ bits)
power_small zero n h = ground arith
power_small (suc bits) n h = elim (Bool-cases (n == 2 ^ bits)) [
  | inl e ↦ omega (arith, ==→eq n (2 ^ bits) e, pow-pos bits, pow-suc 2 bits)
  | inr ne ↦ omega (arith, power_small bits n (rw ne at h), pow-suc 2 bits)
]

part_sizes :
    (n : ℕ)
    → is_power_of_two n ≡ true
    → queue_part_sizes n ≡ some (desc_size n, avail_size n, used_size n)
unfolding queue_part_sizes
part_sizes n h = rw h

-- the pages of a legacy layout
abbrev legacy_pages : ℕ → ℕ
legacy_pages n = (align_up (desc_size n + avail_size n) + align_up (used_size n)) / page_size

legacy-Placed :
    (n paddr vaddr : ℕ)
    → is_power_of_two n ≡ true
    → Placed n (
        legacy
          (record { paddr = paddr; vaddr = vaddr; pages = legacy_pages n })
          (desc_size n)
          (align_up (desc_size n + avail_size n)))
legacy-Placed n paddr vaddr h =
    let small = power_small 16 n h in
    let e₁ = align_up_lem (desc_size n + avail_size n) (omega arith) in
    let e₂ = align_up_lem (used_size n) (omega arith) in
    (omega arith, omega arith, omega arith, omega arith, omega arith)

modern-Placed :
    (n p v p' v' : ℕ)
    → Placed n (
        modern
          (record { paddr = p; vaddr = v; pages = pages (desc_size n + avail_size n) })
          (record { paddr = p'; vaddr = v'; pages = pages (used_size n) })
          (desc_size n))
modern-Placed n p v p' v' =
    (omega arith, le_pages (desc_size n + avail_size n), le_pages (used_size n), omega arith)

module _ (H : Hal) where
  -- a call that returns a layout as `P` says, or fails for want of memory
  abbrev pub Allocates : (VirtQueueLayout → Type 0) → Run H.State VirtQueueLayout → Type 0
  Allocates P r =
      ((s : H.State) × (r ≡ err dma_error s))
      ⊎ ((l : VirtQueueLayout) × (s : H.State) × (r ≡ ok l s) × P l)

  -- the memory is what `dma_alloc` returned for that many pages
  abbrev pub Got : Dma → Type 0
  Got dma =
      (direction : BufferDirection) × (s : H.State) × (paddr vaddr : ℕ) × ((H.dma_alloc dma.pages
          direction s).0
        ≡ (paddr, vaddr))
      × (dma.paddr ≡ paddr)
      × (dma.vaddr ≡ vaddr)
      × ((paddr == 0) ≡ false)

  abbrev pub AllGot : VirtQueueLayout → Type 0
  AllGot (legacy dma avail used) = Got dma
  AllGot (modern driver device avail) = Got driver × Got device

  weaken-Allocates :
      (P Q : VirtQueueLayout → Type 0) (r : Run H.State VirtQueueLayout)
      → Allocates P r
      → ((l : VirtQueueLayout) → P l → Q l)
      → Allocates Q r
  weaken-Allocates P Q r (inl failed) h = inl failed
  weaken-Allocates P Q r (inr (l, s, e, p)) h = inr (l, s, e, h l p)

  pub allocate_legacy-Got :
      (n : ℕ) (s : H.State)
      → is_power_of_two n ≡ true
      → Allocates (λ l. Placed n l × AllGot l) (allocate_legacy H n s)
  unfolding allocate_legacy dma_new
  allocate_legacy-Got n s h =
      let got = H.dma_alloc (legacy_pages n) both s in
      elim (Bool-cases (got.0.0 == 0)) [
        | inl failed ↦ inl (got.1, rw (part_sizes n h, failed))
        | inr good ↦ inr (
          legacy (record { paddr = got.0.0; vaddr = got.0.1; pages = legacy_pages n }) (desc_size n)
              (align_up (desc_size n + avail_size n)),
          got.1,
          rw (part_sizes n h, good),
          (legacy-Placed n got.0.0 got.0.1 h, (both, s, got.0.0, got.0.1, refl, refl, refl, good)),
        )
      ]

  -- For a size that is a power of 2, `allocate_legacy` returns a layout in which all parts are
  -- placed, or fails for want of memory.
  pub allocate_legacy-Placed :
      (n : ℕ) (s : H.State)
      → is_power_of_two n ≡ true
      → Allocates (Placed n) (allocate_legacy H n s)
  allocate_legacy-Placed n s h =
      weaken-Allocates (λ l. Placed n l × AllGot l) (Placed n) (allocate_legacy H n s)
        (allocate_legacy-Got n s h) (λ l p. p.0)

  pub allocate_flexible-Got :
      (n : ℕ) (s : H.State)
      → is_power_of_two n ≡ true
      → ((paddr vaddr k : ℕ) (t : H.State) → (H.dma_dealloc paddr vaddr k t).0 ≡ 0)
      → Allocates (λ l. Placed n l × AllGot l) (allocate_flexible H n s)
  unfolding allocate_flexible dma_new dma_drop
  allocate_flexible-Got n s h drops =
      let n₁ = pages (desc_size n + avail_size n) in
      let first = H.dma_alloc n₁ driver_to_device s in
      let second = H.dma_alloc (pages (used_size n)) device_to_driver first.1 in
      elim (Bool-cases (first.0.0 == 0)) [
        | inl failed ↦ inl (first.1, rw (part_sizes n h, failed))
        | inr good ↦ elim (Bool-cases (second.0.0 == 0)) [
          | inl failed ↦ inl (
            (H.dma_dealloc first.0.0 first.0.1 n₁ second.1).1,
            rw (part_sizes n h, good, failed, drops first.0.0 first.0.1 n₁ second.1),
          )
          | inr good₂ ↦ inr (
            modern (record { paddr = first.0.0; vaddr = first.0.1; pages = n₁ })
                (record { paddr = second.0.0; vaddr = second.0.1; pages = pages (used_size n) })
                (desc_size n),
            second.1,
            rw (part_sizes n h, good, good₂),
            (
              modern-Placed n first.0.0 first.0.1 second.0.0 second.0.1,
              (
                (driver_to_device, s, first.0.0, first.0.1, refl, refl, refl, good),
                (device_to_driver, first.1, second.0.0, second.0.1, refl, refl, refl, good₂),
              ),
            ),
          )
        ]
      ]

  -- For a size that is a power of 2, and where `dma_dealloc` always succeeds, `allocate_flexible`
  -- returns a layout in which all parts are placed, or fails for want of memory.
  pub allocate_flexible-Placed :
      (n : ℕ) (s : H.State)
      → is_power_of_two n ≡ true
      → ((paddr vaddr k : ℕ) (t : H.State) → (H.dma_dealloc paddr vaddr k t).0 ≡ 0)
      → Allocates (Placed n) (allocate_flexible H n s)
  allocate_flexible-Placed n s h drops =
      weaken-Allocates (λ l. Placed n l × AllGot l) (Placed n) (allocate_flexible H n s)
        (allocate_flexible-Got n s h drops) (λ l p. p.0)
