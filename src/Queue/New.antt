-- ===== src/Queue/New.antt =====
-- `VirtQueue::new` of src/queue.rs.
pub mod Correct
use virtio_drivers_and_devic.Prelude.{
  ℕ, zero, suc, ◌+◌, ◌-◌, ◌^◌, ltb, leb, if◌then◌else◌, Bool, none, List, set, get_or, replicate,
  ◌&&◌,
}
use virtio_drivers_and_devic.Error.{
  Cmd, Run, ok, err, panic, already_used, invalid_param, ◌>>=◌, ◌>>◌, get, put, pure, fail, assert,
  unwrap,
}
use virtio_drivers_and_devic.Hal.{Hal}
use virtio_drivers_and_devic.Transport.{Transport}
use virtio_drivers_and_devic.Queue.Descriptor.{Descriptor, zeroed}
use virtio_drivers_and_devic.Queue.State.{VirtQueue, AvailRing, UsedRing}
use virtio_drivers_and_devic.Queue.Layout.{
  VirtQueueLayout, is_power_of_two, allocate_legacy, allocate_flexible, descriptors_paddr,
  descriptors_vaddr, driver_area_paddr, avail_vaddr, device_area_paddr, used_vaddr,
}

-- what the pages from `dma_alloc`, which are zeroed, hold as rings
abbrev pub zeroed_avail : ℕ → AvailRing
zeroed_avail size = record { flags = 0; idx = 0; ring = replicate size 0; used_event = 0 }

abbrev pub zeroed_used : ℕ → UsedRing
zeroed_used size = record {
  flags = 0;
  idx = 0;
  ring = replicate size (record { id = 0; len = 0 });
  avail_event = 0;
}

-- `for i in i..i + n { table[i].next = i + 1; }`
unfoldable pub link_from : ℕ → ℕ → List Descriptor → List Descriptor
link_from i zero table = table
link_from i (suc n) table =
    link_from (i + 1) n (set table i (record (get_or table i zeroed) { next = i + 1 }))

-- the whole loop
abbrev pub link_table : ℕ → List Descriptor
link_table size = link_from 0 (size - 1) (replicate size zeroed)

-- `SIZE_OK`
abbrev pub size_ok : ℕ → Bool
size_ok size = is_power_of_two size && ltb size (2 ^ 16)

module _ (H : Hal) (T : Transport) where
  -- the states of both
  abbrev pub World : Type 0
  World = H.State × T.State

  -- a call of the `Hal`, which leaves the transport alone
  abbrev pub on_hal {ℓ} : {A : Type ℓ} → T.State → Run H.State A → Run World A
  on_hal t (ok a s) = ok a (s, t)
  on_hal t (err e s) = err e (s, t)
  on_hal t panic = panic

  abbrev pub allocate : ℕ → Cmd World VirtQueueLayout
  allocate size (s, t) =
      on_hal t (
        if T.requires_legacy_layout t then allocate_legacy H size s else allocate_flexible H size s)

  -- the rest of `new`, with the memory for the queue
  unfoldable pub set_up : ℕ → ℕ → Bool → Bool → VirtQueueLayout → Cmd World VirtQueue
  set_up size idx indirect event_idx layout = do
    (s, t) ← get
    driver_area ← unwrap (driver_area_paddr layout)
    device_area ← unwrap (device_area_paddr layout)
    put (s, T.queue_set idx size (descriptors_paddr layout) driver_area device_area t)
    desc ← unwrap (descriptors_vaddr layout)
    avail ← unwrap (avail_vaddr layout)
    used ← unwrap (used_vaddr layout)
    assert (leb 1 size)
    pure (record {
      size = size;
      desc = link_table size;
      avail = zeroed_avail size;
      used = zeroed_used size;
      queue_idx = idx;
      num_used = 0;
      free_head = 0;
      desc_shadow = link_table size;
      avail_idx = 0;
      last_used_idx = 0;
      event_idx = event_idx;
      indirect = indirect;
      indirect_lists = replicate size none;
    })

  -- `VirtQueue::new`; a size that is not allowed is refused when the program is compiled
  unfoldable pub new : ℕ → ℕ → Bool → Bool → Cmd World VirtQueue
  unfolding set_up
  new size idx indirect event_idx = do
    assert (size_ok size)
    (s, t) ← get
    let (in_use, t₁) = T.queue_used idx t
    put (s, t₁)
    if in_use then fail already_used else do
      let (max_size, t₂) = T.max_queue_size idx t₁
      put (s, t₂)
      if ltb max_size size
          then fail invalid_param
          else do layout ← allocate size; set_up size idx indirect event_idx layout
