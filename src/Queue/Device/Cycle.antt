-- ===== src/Queue/Device/Cycle.antt =====
-- `pop_avail` of src/queue.rs on a chain that leads back to itself.
use mathlib.Core.Path.{subst}
use virtio_drivers_and_devic.Prelude.{
  ℕ, zero, suc, ◌<◌, ◌≡◌, ◌≢◌, refl, sym, ap, ◌∙◌, some, none, List, [], ◌∷◌, ◌++◌, length, true,
  get_elem?, bit_and, ◌-◌,
}
use virtio_drivers_and_devic.Error.{ok}
use virtio_drivers_and_devic.Hal.{DeviceHal, Buffer, BufferDirection}
use virtio_drivers_and_devic.Queue.Descriptor.{Descriptor, next_flag}
use virtio_drivers_and_devic.Queue.Chain.{at}
use virtio_drivers_and_devic.Queue.Device.{
  Device, DeviceVirtQueue, pop_loop, pop_avail, peek_avail, finish_avail, can_pop,
}
use virtio_drivers_and_devic.Queue.Device.Walk.{found, popped_one}

-- a descriptor of a nonempty buffer for the device to read whose `next` leads back to it
pub record Cyclic (ds : List Descriptor) (i : ℕ) : Type 0 where
  pub inside : i < length ds
  pub flags : (at ds i).flags ≡ next_flag
  pub next : (at ds i).next ≡ i
  pub nonempty : (at ds i).len ≢ 0

module _ (H : DeviceHal) (place : ℕ → ℕ)
    (maps : (paddr n : ℕ) (direction : BufferDirection) (client_id : ℕ) (s : H.State)
      → (s' : H.State) × (H.dma_map paddr n direction client_id s ≡ ok (place paddr) s'))
    (unmaps : (paddr vaddr n : ℕ) (s : H.State) → (H.dma_unmap paddr vaddr n s).0 ≡ 0) where
  loops :
      (i fuel : ℕ) (reads : List Buffer) (d : Device H.State)
      → Cyclic d.queue.desc i
      → length d.queue.desc_mapped ≡ length d.queue.desc
      → (d' : Device H.State) × (pop_loop H fuel (some i) (reads, []) d ≡ ok none d')
  unfolding pop_loop
  loops i zero reads d c n = (d, refl)
  loops i (suc fuel) reads d c n =
      let (d₁, e, m) = popped_one H place maps unmaps i d c.inside n (rw c.flags refl) c.nonempty in
      let same = ap {A = DeviceVirtQueue} (λ q. q.desc) m.same_queue in
      let (d₂, e₂) =
        loops i fuel (reads ++ (found place (at d.queue.desc i) ∷ [])) d₁
          (subst (λ ds. Cyclic ds i) (sym same) c)
          (m.same_length ∙ n ∙ sym (ap {A = List Descriptor} (λ l. length l) same)) in
      (d₂, rw (e, c.flags, c.next, e₂) refl)

  -- Where the platform maps every address at a fixed place and unmaps without error, and the driver
  -- offers such a descriptor, `pop_avail` goes on after any number of descriptors.
  pub pop_avail-Cyclic :
      (i fuel : ℕ) (d : Device H.State)
      → can_pop d.queue ≡ true
      → get_elem? d.queue.avail.ring (bit_and d.queue.avail_idx (d.queue.size - 1)) ≡ some i
      → Cyclic d.queue.desc i
      → length d.queue.desc_mapped ≡ length d.queue.desc
      → (d' : Device H.State) × (pop_avail H fuel d ≡ ok none d')
  unfolding pop_avail peek_avail finish_avail
  pop_avail-Cyclic i fuel d ready head c n =
      let (d', e) = loops i fuel [] d c n in (d', rw (ready, head, e) refl)
