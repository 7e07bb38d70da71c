-- ===== src/Queue/Device/Open.antt =====
-- `DeviceVirtQueue::new` of src/queue.rs, and how it maps the parts of a queue.
use virtio_drivers_and_devic.Prelude.{
  ℕ, ◌+◌, ◌/◌, ◌==◌, not, if◌then◌else◌, Bool, Option, none, List, replicate,
}
use virtio_drivers_and_devic.Error.{
  Cmd, Run, ok, err, panic, invalid_param, ◌>>=◌, ◌>>◌, get, put, pure, fail, assert, unwrap,
}
use virtio_drivers_and_devic.Memory.{page_size, align_up, pages}
use virtio_drivers_and_devic.Hal.{
  DeviceHal, DeviceDma, device_dma_new, device_dma_drop, device_dma_vaddr, driver_to_device,
  device_to_driver, both,
}
use virtio_drivers_and_devic.Queue.Descriptor.{Descriptor}
use virtio_drivers_and_devic.Queue.State.{AvailRing, UsedRing}
use virtio_drivers_and_devic.Queue.Layout.{queue_part_sizes}
use virtio_drivers_and_devic.Queue.New.{size_ok}
use virtio_drivers_and_devic.Queue.Device.{DeviceVirtQueue}

-- `DeviceTransport`, whose implementations keep a `State`
pub record DeviceTransport : Type 1 where
  pub State : Type 0
  pub get_client_id : State → ℕ
  pub max_queue_size : ℕ → State → ℕ × State
  pub requires_legacy_layout : State → Bool
  -- the addresses of descriptors, driver area and device area
  pub queue_get : ℕ → State → (ℕ × ℕ × ℕ) × State
  pub notify : ℕ → State → State

-- `VirtQueueLayout` with mapped memory
pub data MappedLayout : Type 0 where
  mapped_legacy : DeviceDma → ℕ → ℕ → MappedLayout
  mapped_modern : DeviceDma → DeviceDma → ℕ → MappedLayout

-- the addresses of the three parts; `none` is a failed assertion
abbrev pub mapped_vaddrs : MappedLayout → Option ℕ × Option ℕ × Option ℕ
mapped_vaddrs (mapped_legacy dma avail_offset used_offset) =
    (device_dma_vaddr dma 0, device_dma_vaddr dma avail_offset, device_dma_vaddr dma used_offset)
mapped_vaddrs (mapped_modern drv dev avail_offset) =
    (device_dma_vaddr drv 0, device_dma_vaddr drv avail_offset, device_dma_vaddr dev 0)

-- the tables that the driver has put into the memory of a queue
pub record Tables : Type 0 where
  pub desc : List Descriptor
  pub avail : AvailRing
  pub used : UsedRing

module _ (H : DeviceHal) where
  -- `map_legacy`
  unfoldable pub map_legacy : ℕ → ℕ → ℕ → Cmd H.State MappedLayout
  map_legacy queue_size paddr client_id = do
    (desc, avail, used) ← unwrap (queue_part_sizes queue_size)
    let size = align_up (desc + avail) + align_up used
    dma ← device_dma_new H paddr (size / page_size) both client_id
    pure (mapped_legacy dma desc (align_up (desc + avail)))

  -- the `?` on the second region of `map_flexible`, which drops the first
  abbrev pub or_unmap : DeviceDma → Run H.State DeviceDma → Run H.State DeviceDma
  or_unmap first (ok dma s) = ok dma s
  or_unmap first (err e s) = (do device_dma_drop H first; λ t. err e t) s
  or_unmap first panic = panic

  -- `map_flexible`
  unfoldable pub map_flexible : ℕ → ℕ → ℕ → ℕ → Cmd H.State MappedLayout
  map_flexible queue_size desc_avail_paddr used_paddr client_id = do
    (desc, avail, used) ← unwrap (queue_part_sizes queue_size)
    driver_to_device_dma ←
        device_dma_new H desc_avail_paddr (pages (desc + avail)) driver_to_device client_id
    device_to_driver_dma ← λ s.
        or_unmap driver_to_device_dma
          (device_dma_new H used_paddr (pages used) device_to_driver client_id s)
    pure (mapped_modern driver_to_device_dma device_to_driver_dma desc)

module _ (H : DeviceHal) (T : DeviceTransport) where
  abbrev pub DeviceWorld : Type 0
  DeviceWorld = H.State × T.State

  abbrev pub keep_transport {ℓ} : {A : Type ℓ} → T.State → Run H.State A → Run DeviceWorld A
  keep_transport t (ok a s) = ok a (s, t)
  keep_transport t (err e s) = err e (s, t)
  keep_transport t panic = panic

  abbrev pub map_layout : ℕ → ℕ → ℕ → ℕ → Cmd DeviceWorld MappedLayout
  map_layout size paddr used_paddr client_id (s, t) = keep_transport t (
      if T.requires_legacy_layout t
      then map_legacy H size paddr client_id s
      else map_flexible H size paddr used_paddr client_id s)

  -- the rest of `new`, with the memory of the queue mapped
  abbrev pub opened : ℕ → ℕ → ℕ → Tables → MappedLayout → Cmd DeviceWorld DeviceVirtQueue
  opened size idx client_id tables layout = do
    desc ← unwrap (mapped_vaddrs layout).0
    avail ← unwrap (mapped_vaddrs layout).1
    used ← unwrap (mapped_vaddrs layout).2
    pure (record {
      size = size;
      desc = tables.desc;
      avail = tables.avail;
      used = tables.used;
      queue_idx = idx;
      avail_idx = 0;
      last_used_idx = 0;
      desc_mapped = replicate size none;
      client_id = client_id;
    })

  -- `DeviceVirtQueue::new`, on the tables that the driver has put into the memory
  unfoldable pub new : ℕ → ℕ → Tables → Cmd DeviceWorld DeviceVirtQueue
  unfolding map_legacy map_flexible device_dma_vaddr
  new size idx tables = do
    assert (size_ok size)
    (s, t) ← get
    let (max_size, t₁) = T.max_queue_size idx t
    put (s, t₁)
    if not (max_size == size) then fail invalid_param else do
      let client_id = T.get_client_id t₁
      let ((paddr, driver_area, used_paddr), t₂) = T.queue_get idx t₁
      put (s, t₂)
      layout ← map_layout size paddr used_paddr client_id
      opened size idx client_id tables layout
