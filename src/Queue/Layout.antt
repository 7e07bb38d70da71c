-- ===== src/Queue/Layout.antt =====
-- `queue_part_sizes` and `VirtQueueLayout` of src/queue.rs.
pub mod Regions
use virtio_drivers_and_devic.Prelude.{
  ℕ, zero, suc, ◌+◌, ◌*◌, ◌/◌, ◌^◌, ◌==◌, ◌||◌, if◌then◌else◌, Bool, false, Option, some, none,
}
use virtio_drivers_and_devic.Error.{Cmd, Run, ok, err, panic, ◌>>=◌, ◌>>◌, pure, unwrap}
use virtio_drivers_and_devic.Hal.{
  Hal, Dma, dma_new, dma_drop, dma_vaddr, usize_sum, driver_to_device, device_to_driver, both,
}
use virtio_drivers_and_devic.Memory.{page_size, align_up, pages}
use virtio_drivers_and_devic.Queue.Descriptor.{size_of_descriptor}

-- one of the powers of 2 below `2 ^ bits`
abbrev pub is_power_below : ℕ → ℕ → Bool
is_power_below zero n = false
is_power_below (suc bits) n = (n == 2 ^ bits) || is_power_below bits n

-- `is_power_of_two` on `u16`
abbrev pub is_power_of_two : ℕ → Bool
is_power_of_two n = is_power_below 16 n

-- `size_of::<u16>()` and `size_of::<UsedElem>()`
abbrev pub size_of_u16 : ℕ
size_of_u16 = 2

abbrev pub size_of_used_elem : ℕ
size_of_used_elem = 8

-- the three sizes, in bytes
abbrev pub desc_size : ℕ → ℕ
desc_size n = size_of_descriptor * n

abbrev pub avail_size : ℕ → ℕ
avail_size n = size_of_u16 * (3 + n)

abbrev pub used_size : ℕ → ℕ
used_size n = size_of_u16 * 3 + size_of_used_elem * n

-- `queue_part_sizes`; `none` is the failed assertion
unfoldable pub queue_part_sizes : ℕ → Option (ℕ × ℕ × ℕ)
queue_part_sizes n =
    if is_power_of_two n then some (desc_size n, avail_size n, used_size n) else none

-- `VirtQueueLayout`
pub data VirtQueueLayout : Type 0 where
  legacy : Dma → ℕ → ℕ → VirtQueueLayout
  modern : Dma → Dma → ℕ → VirtQueueLayout

module _ (H : Hal) where
  -- `allocate_legacy`
  unfoldable pub allocate_legacy : ℕ → Cmd H.State VirtQueueLayout
  allocate_legacy queue_size = do
    (desc, avail, used) ← unwrap (queue_part_sizes queue_size)
    let size = align_up (desc + avail) + align_up used
    dma ← dma_new H (size / page_size) both
    pure (legacy dma desc (align_up (desc + avail)))

  -- the `?` on the second region of `allocate_flexible`, which drops the first
  abbrev pub or_drop : Dma → Run H.State Dma → Run H.State Dma
  or_drop first (ok dma s) = ok dma s
  or_drop first (err e s) = (do dma_drop H first; λ t. err e t) s
  or_drop first panic = panic

  -- `allocate_flexible`
  unfoldable pub allocate_flexible : ℕ → Cmd H.State VirtQueueLayout
  allocate_flexible queue_size = do
    (desc, avail, used) ← unwrap (queue_part_sizes queue_size)
    driver_to_device_dma ← dma_new H (pages (desc + avail)) driver_to_device
    device_to_driver_dma ←
        λ s. or_drop driver_to_device_dma (dma_new H (pages used) device_to_driver s)
    pure (modern driver_to_device_dma device_to_driver_dma desc)

-- the addresses of the three areas, as the device and as the driver sees them; `none` is a sum that
-- overflows, or an offset outside the region
unfoldable pub descriptors_paddr : VirtQueueLayout → ℕ
descriptors_paddr (legacy dma a u) = dma.paddr
descriptors_paddr (modern drv dev a) = drv.paddr

unfoldable pub descriptors_vaddr : VirtQueueLayout → Option ℕ
descriptors_vaddr (legacy dma a u) = dma_vaddr dma 0
descriptors_vaddr (modern drv dev a) = dma_vaddr drv 0

unfoldable pub driver_area_paddr : VirtQueueLayout → Option ℕ
driver_area_paddr (legacy dma a u) = usize_sum dma.paddr a
driver_area_paddr (modern drv dev a) = usize_sum drv.paddr a

unfoldable pub avail_vaddr : VirtQueueLayout → Option ℕ
avail_vaddr (legacy dma a u) = dma_vaddr dma a
avail_vaddr (modern drv dev a) = dma_vaddr drv a

unfoldable pub device_area_paddr : VirtQueueLayout → Option ℕ
device_area_paddr (legacy dma a u) = usize_sum dma.paddr u
device_area_paddr (modern drv dev a) = some dev.paddr

unfoldable pub used_vaddr : VirtQueueLayout → Option ℕ
used_vaddr (legacy dma a u) = dma_vaddr dma u
used_vaddr (modern drv dev a) = dma_vaddr dev 0
