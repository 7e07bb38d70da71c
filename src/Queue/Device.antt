-- ===== src/Queue/Device.antt =====
-- `DeviceVirtQueue` of src/queue.rs: the device's side of a virtqueue.
pub mod Walk
pub mod Correct
pub mod Cycle
pub mod Open
pub mod Copy
use virtio_drivers_and_devic.Prelude.{
  ℕ, zero, suc, ◌-◌, ◌%◌, ◌^◌, ◌==◌, ltb, leb, if◌then◌else◌, not, ◌&&◌, bit_and, Bool, true, false,
  Option, none, some, List, [], ◌∷◌, ◌++◌, length, get_elem?, set,
}
use virtio_drivers_and_devic.Error.{
  Cmd, Run, ok, err, panic, Error, wrong_token, invalid_descriptor, ◌>>=◌, ◌>>◌, get, put, pure,
  fail, assert, unwrap,
}
use virtio_drivers_and_devic.Memory.{pages}
use virtio_drivers_and_devic.Hal.{
  DeviceHal, DeviceDma, same_dma, device_dma_new, device_dma_drop, raw_slice, Buffer,
  BufferDirection, driver_to_device, device_to_driver,
}
use virtio_drivers_and_devic.Queue.Descriptor.{
  Descriptor, contains, next_flag, write_flag, indirect_flag,
}
use virtio_drivers_and_devic.Queue.State.{AvailRing, UsedRing, wrapping_add}

-- `MappedDescriptor`
pub record MappedDescriptor : Type 0 where
  pub desc_copy : Descriptor
  pub dma : DeviceDma

-- `PartialEq` of `Descriptor` and of `MappedDescriptor`
abbrev pub same_descriptor : Descriptor → Descriptor → Bool
same_descriptor a b =
    (a.addr == b.addr) && (a.len == b.len) && (a.flags == b.flags) && (a.next == b.next)

unfoldable pub same_mapped : MappedDescriptor → MappedDescriptor → Bool
unfolding same_dma
same_mapped a b = same_descriptor a.desc_copy b.desc_copy && same_dma a.dma b.dma

-- `DescriptorBuffers`
pub record DescriptorBuffers : Type 0 where
  pub read_buffers : List Buffer
  pub write_buffers : List Buffer
  pub head : ℕ

-- `DeviceVirtQueue`; `size` is the constant `SIZE`
pub record DeviceVirtQueue : Type 0 where
  pub size : ℕ
  pub desc : List Descriptor
  pub avail : AvailRing
  pub used : UsedRing
  pub queue_idx : ℕ
  pub avail_idx : ℕ
  pub last_used_idx : ℕ
  pub desc_mapped : List (Option MappedDescriptor)
  pub client_id : ℕ

-- the queue, and the state of the `DeviceHal`
pub record Device (S : Type 0) : Type 0 where
  pub queue : DeviceVirtQueue
  pub hal : S

-- `can_pop`
unfoldable pub can_pop : DeviceVirtQueue → Bool
can_pop q = not (q.avail_idx == q.avail.idx)

-- `peek_avail`; the outer `none` is an index out of range
unfoldable pub peek_avail : DeviceVirtQueue → Option (Option ℕ)
peek_avail q =
    if can_pop q
    then elim (get_elem? q.avail.ring (bit_and q.avail_idx (q.size - 1))) [
      | none ↦ none
      | some head ↦ some (some head)
    ]
    else some none

-- `should_notify`
unfoldable pub should_notify : DeviceVirtQueue → Bool
should_notify q = bit_and q.avail.flags 1 == 0

-- `read_desc`: `none` is the error
unfoldable pub read_desc : DeviceVirtQueue → ℕ → Option Descriptor
read_desc q index = get_elem? q.desc index

-- the direction in which a descriptor's buffer is mapped
abbrev pub map_direction : Descriptor → BufferDirection
map_direction e = if contains e.flags write_flag then device_to_driver else driver_to_device

-- `if desc.flags.contains(NEXT) { Some(desc.next) } else { None }`
abbrev pub next_token : Descriptor → Option ℕ
next_token e = if contains e.flags next_flag then some e.next else none

-- `ok_or`
abbrev pub ok_or {ℓ κ} : {W : Type ℓ} {A : Type κ} → Option A → Error → Cmd W A
ok_or (some a) e = pure a
ok_or none e = fail e

module _ (H : DeviceHal) where
  -- a call of the `DeviceHal`, which leaves the queue alone
  abbrev pub keep_queue {ℓ} : {A : Type ℓ} → Device H.State → Run H.State A → Run (Device H.State) A
  keep_queue d (ok a s) = ok a (record d { hal = s })
  keep_queue d (err e s) = err e (record d { hal = s })
  keep_queue d panic = panic

  abbrev pub on_hal {ℓ} : {A : Type ℓ} → Cmd H.State A → Cmd (Device H.State) A
  on_hal c d = keep_queue d (c d.hal)

  -- `MappedDescriptor::map_buf`
  unfoldable pub map_buf : Descriptor → ℕ → Cmd H.State MappedDescriptor
  unfolding device_dma_new
  map_buf e client_id = do
    dma ← device_dma_new H e.addr (pages e.len) (map_direction e) client_id
    pure (record { desc_copy = e; dma = dma })

  -- `*mapped_desc = Some(new_desc)`, which drops the old one, unless it is the same
  unfoldable pub store_mapped :
      ℕ → Option MappedDescriptor → MappedDescriptor → Cmd (Device H.State) (Unit {0})
  unfolding device_dma_drop same_mapped
  store_mapped token none mapped = do
    d ← get
    put (record d {
      queue = record d.queue { desc_mapped = set d.queue.desc_mapped token (some mapped) };
    })
  store_mapped token (some old) mapped = if same_mapped old mapped then pure tt else do
    on_hal (device_dma_drop H old.dma)
    d ← get
    put (record d {
      queue = record d.queue { desc_mapped = set d.queue.desc_mapped token (some mapped) };
    })

  -- one turn of the loop of `pop_avail`: the buffer of a descriptor, its direction, and where the
  -- chain goes on
  unfoldable pub pop_one : ℕ → Cmd (Device H.State) (Buffer × Bool × Option ℕ)
  unfolding read_desc map_buf store_mapped raw_slice
  pop_one token = do
    d ← get
    e ← ok_or (read_desc d.queue token) wrong_token
    assert (not (contains e.flags indirect_flag))
    prev ← ok_or (get_elem? d.queue.desc_mapped token) wrong_token
    new_desc ← on_hal (map_buf e d.queue.client_id)
    store_mapped token prev new_desc
    d ← get
    entry ← unwrap (get_elem? d.queue.desc_mapped token)
    mapped ← unwrap entry
    slice ← unwrap (raw_slice mapped.dma)
    assert (leb e.len slice.len)
    pure (record slice { len = e.len }, contains e.flags write_flag, next_token e)

  -- `push`, which refuses a read buffer behind a write buffer
  abbrev pub push :
      Buffer → Bool → List Buffer × List Buffer → Cmd (Device H.State) (List Buffer × List Buffer)
  push b true (reads, writes) = pure (reads, writes ++ (b ∷ []))
  push b false (reads, []) = pure (reads ++ (b ∷ []), [])
  push b false (reads, w ∷ ws) = fail invalid_descriptor

  -- The loop of `pop_avail`, for at most the given number of turns: `none` if it goes on.
  unfoldable pub pop_loop :
      ℕ
      → Option ℕ
      → List Buffer × List Buffer
      → Cmd (Device H.State) (Option (List Buffer × List Buffer))
  pop_loop fuel none buffers = pure (some buffers)
  pop_loop zero (some token) buffers = pure none
  pop_loop (suc fuel) (some token) buffers = do
    (b, write, next) ← pop_one token
    buffers' ← push b write buffers
    pop_loop fuel next buffers'

  -- the end of `pop_avail`
  unfoldable pub finish_avail :
      ℕ
      → Option (List Buffer × List Buffer)
      → Cmd (Device H.State) (Option (Option DescriptorBuffers))
  finish_avail head none = pure none
  finish_avail head (some (reads, writes)) = do
    d ← get
    put (record d { queue = record d.queue { avail_idx = wrapping_add d.queue.avail_idx 1 } })
    pure (some (some (record { read_buffers = reads; write_buffers = writes; head = head })))

  -- `pop_avail`, for chains of at most `fuel` descriptors: the outer `none` if this one goes on
  unfoldable pub pop_avail : ℕ → Cmd (Device H.State) (Option (Option DescriptorBuffers))
  pop_avail fuel = do
    d ← get
    peeked ← unwrap (peek_avail d.queue)
    elim peeked [
      | none ↦ pure (some none)
      | some head ↦ do buffers ← pop_loop fuel (some head) ([], []); finish_avail head buffers
    ]

  -- `add_used`
  unfoldable pub add_used : ℕ → ℕ → Cmd (Device H.State) (Unit {0})
  add_used head head_len = do
    d ← get
    let q = d.queue
    let slot = bit_and q.last_used_idx (q.size - 1)
    assert (ltb slot (length q.used.ring))
    let idx = wrapping_add q.last_used_idx 1
    put (record d {
      queue = record q {
        used = record q.used {
          ring = set q.used.ring slot (record { id = head; len = head_len % 2 ^ 32 });
          idx = idx;
        };
        last_used_idx = idx;
      };
    })
