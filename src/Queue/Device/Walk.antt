-- ===== src/Queue/Device/Walk.antt =====
-- How `pop_avail` of src/queue.rs walks a chain that the driver has posted.
use virtio_drivers_and_devic.Prelude.{
  ℕ, ◌+◌, ◌*◌, ◌<◌, ◌≡◌, ◌≢◌, refl, ap, ◌∙◌, arith, true, false, Bool-cases, inl, inr, Option, none,
  some, length, set, length-set, get_elem?, get_elem?-eq-get_or, get_elem?-set_self, get_or, leb,
}
use virtio_drivers_and_devic.Error.{ok}
use virtio_drivers_and_devic.Memory.{page_size, pages}
use virtio_drivers_and_devic.Memory.Rounding.{le_pages}
use virtio_drivers_and_devic.Hal.{
  DeviceHal, DeviceDma, same_dma, device_dma_new, device_dma_drop, device_dma_vaddr, raw_slice,
  Buffer, BufferDirection,
}
use virtio_drivers_and_devic.Queue.Descriptor.{
  Descriptor, zeroed, contains, write_flag, indirect_flag,
}
use virtio_drivers_and_devic.Queue.Chain.{at}
use virtio_drivers_and_devic.Queue.Device.{
  Device, DeviceVirtQueue, MappedDescriptor, same_mapped, map_buf, map_direction, next_token,
  store_mapped, pop_one, read_desc,
}

-- Only the mappings of `d` have changed, and not their number.
pub record Mapped {S : Type 0} (d d' : Device S) : Type 0 where
  pub same_queue : d'.queue ≡ record d.queue { desc_mapped = d'.queue.desc_mapped }
  pub same_length : length d'.queue.desc_mapped ≡ length d.queue.desc_mapped

pub Mapped-trans : {S : Type 0} (d d' d'' : Device S) → Mapped d d' → Mapped d' d'' → Mapped d d''
Mapped-trans d d' d'' m m' = record {
  same_queue =
      m'.same_queue
      ∙ ap {A = DeviceVirtQueue} (λ q. record q { desc_mapped = d''.queue.desc_mapped })
          m.same_queue;
  same_length = m'.same_length ∙ m.same_length;
}

same_mapped-dma :
    (a b : MappedDescriptor)
    → same_mapped a b ≡ true
    → (a.dma.vaddr ≡ b.dma.vaddr) × (a.dma.pages ≡ b.dma.pages)
unfolding same_mapped same_dma
same_mapped-dma a b h = ground arith

start_inside : (r : DeviceDma) → 0 < r.pages → device_dma_vaddr r 0 ≡ some (r.vaddr + 0)
unfolding device_dma_vaddr
start_inside r h = ground arith

raw_slice-some :
    (r : DeviceDma)
    → 0 < r.pages
    → raw_slice r ≡ some (record { ptr = r.vaddr + 0; len = r.pages * page_size })
unfolding raw_slice
raw_slice-some r h = rw (raw_slice, start_inside r h) refl

read_desc-some :
    (q : DeviceVirtQueue) (i : ℕ) → i < length q.desc → read_desc q i ≡ some (at q.desc i)
unfolding read_desc
read_desc-some q i h = get_elem?-eq-get_or q.desc i zeroed h

-- the buffer of a descriptor, where the device finds it
abbrev pub found : (ℕ → ℕ) → Descriptor → Buffer
found place e = record { ptr = place e.addr + 0; len = e.len }

module _ (H : DeviceHal) (place : ℕ → ℕ)
    (maps : (paddr n : ℕ) (direction : BufferDirection) (client_id : ℕ) (s : H.State)
      → (s' : H.State) × (H.dma_map paddr n direction client_id s ≡ ok (place paddr) s'))
    (unmaps : (paddr vaddr n : ℕ) (s : H.State) → (H.dma_unmap paddr vaddr n s).0 ≡ 0) where
  dropped :
      (r : DeviceDma) (s : H.State)
      → device_dma_drop H r s ≡ ok tt (H.dma_unmap r.paddr r.vaddr r.pages s).1
  unfolding device_dma_drop
  dropped r s = rw (unmaps r.paddr r.vaddr r.pages s) refl

  stored :
      (i : ℕ) (prev : Option MappedDescriptor) (m : MappedDescriptor) (d : Device H.State)
      → i < length d.queue.desc_mapped
      → get_elem? d.queue.desc_mapped i ≡ some prev
      → (d' : Device H.State) × (m' : MappedDescriptor) × (store_mapped H i prev m d ≡ ok tt d')
        × Mapped d d'
        × (get_elem? d'.queue.desc_mapped i ≡ some (some m'))
        × (m'.dma.vaddr ≡ m.dma.vaddr)
        × (m'.dma.pages ≡ m.dma.pages)
  unfolding store_mapped
  stored i none m d h e = (
    record d { queue = record d.queue { desc_mapped = set d.queue.desc_mapped i (some m) } },
    m,
    refl,
    record { same_queue = refl; same_length = length-set d.queue.desc_mapped i (some m) },
    get_elem?-set_self d.queue.desc_mapped i (some m) h,
    refl,
    refl,
  )
  stored i (some old) m d h e = elim (Bool-cases (same_mapped old m)) [
    | inl same ↦ (
      d,
      old,
      rw same refl,
      record { same_queue = refl; same_length = refl },
      e,
      (same_mapped-dma old m same).0,
      (same_mapped-dma old m same).1,
    )
    | inr other ↦ (
      record d {
        queue = record d.queue { desc_mapped = set d.queue.desc_mapped i (some m) };
        hal = (H.dma_unmap old.dma.paddr old.dma.vaddr old.dma.pages d.hal).1;
      },
      m,
      rw (other, dropped old.dma d.hal) refl,
      record { same_queue = refl; same_length = length-set d.queue.desc_mapped i (some m) },
      get_elem?-set_self d.queue.desc_mapped i (some m) h,
      refl,
      refl,
    )
  ]

  mapped_lem :
      (e : Descriptor) (client_id : ℕ) (s : H.State)
      → (s' : H.State) × (map_buf H e client_id s
          ≡ ok
              (record {
                desc_copy = e;
                dma = record {
                  paddr = e.addr;
                  vaddr = place e.addr;
                  pages = pages e.len;
                  client_id = client_id;
                };
              })
              s')
  unfolding map_buf device_dma_new
  mapped_lem e client_id s =
      let (s', h) = maps e.addr (pages e.len) (map_direction e) client_id s in (s', rw h refl)

  -- one turn of the loop, on a descriptor of a nonempty buffer
  pub popped_one :
      (i : ℕ) (d : Device H.State)
      → i < length d.queue.desc
      → length d.queue.desc_mapped ≡ length d.queue.desc
      → contains (at d.queue.desc i).flags indirect_flag ≡ false
      → (at d.queue.desc i).len ≢ 0
      → (d' : Device H.State) × (pop_one H i d
          ≡ ok
              (
                found place (at d.queue.desc i),
                contains (at d.queue.desc i).flags write_flag,
                next_token (at d.queue.desc i),
              )
              d')
        × Mapped d d'
  unfolding pop_one
  popped_one i d h n direct nonempty =
      let e = at d.queue.desc i in
      let here = get_elem?-eq-get_or d.queue.desc_mapped i none (omega (arith, n)) in
      let (s, mapped) = mapped_lem e d.queue.client_id d.hal in
      let (d', m', store, same, stored_here, v, p) =
        stored i (get_or d.queue.desc_mapped i none)
          (record {
            desc_copy = e;
            dma = record {
              paddr = e.addr;
              vaddr = place e.addr;
              pages = pages e.len;
              client_id = d.queue.client_id;
            };
          })
          (record d { hal = s }) (omega (arith, n)) here in
      let raw = raw_slice-some m'.dma (omega (arith, p, le_pages e.len)) in
      (
        d',
        rw (read_desc-some d.queue i h, direct, here, mapped, store, stored_here, raw, room m' p, v)
            refl,
        record { same_queue = same.same_queue; same_length = same.same_length },
      )
    where
      room :
          (m : MappedDescriptor)
          → m.dma.pages ≡ pages (at d.queue.desc i).len
          → leb (at d.queue.desc i).len (m.dma.pages * page_size) ≡ true
      room m p = ground (arith, p, le_pages (at d.queue.desc i).len)
