-- ===== src/Queue/State.antt =====
-- `VirtQueue` of src/queue.rs and the rings that it shares with the device.
use virtio_drivers_and_devic.Prelude.{
  ℕ, ◌+◌, ◌-◌, ◌%◌, ◌^◌, bit_and, Bool, Option, List, get_elem?, set, not, ◌==◌, ltb, length,
  if◌then◌else◌,
}
use virtio_drivers_and_devic.Error.{Cmd, ◌>>=◌, ◌>>◌, get, put, unwrap, assert}
use virtio_drivers_and_devic.Queue.Descriptor.{Descriptor}

-- `AvailRing`, written by the driver
pub record AvailRing : Type 0 where
  pub flags : ℕ
  pub idx : ℕ
  pub ring : List ℕ
  pub used_event : ℕ

-- `UsedElem`
pub record UsedElem : Type 0 where
  pub id : ℕ
  pub len : ℕ

-- `UsedRing`, written by the device
pub record UsedRing : Type 0 where
  pub flags : ℕ
  pub idx : ℕ
  pub ring : List UsedElem
  pub avail_event : ℕ

-- `VirtQueue`; `size` is the constant `SIZE`. A box behind `indirect_lists` is its address and what
-- it holds.
pub record VirtQueue : Type 0 where
  pub size : ℕ
  pub desc : List Descriptor
  pub avail : AvailRing
  pub used : UsedRing
  pub queue_idx : ℕ
  pub num_used : ℕ
  pub free_head : ℕ
  pub desc_shadow : List Descriptor
  pub avail_idx : ℕ
  pub last_used_idx : ℕ
  pub event_idx : Bool
  pub indirect : Bool
  pub indirect_lists : List (Option (ℕ × List Descriptor))

-- `wrapping_add` on `u16`
abbrev pub wrapping_add : ℕ → ℕ → ℕ
wrapping_add a b = (a + b) % 2 ^ 16

-- `index & (SIZE as u16 - 1)`
abbrev pub ring_slot : VirtQueue → ℕ → ℕ
ring_slot q index = bit_and index (q.size - 1)

-- the queue, and the state of what it calls
pub record Driver (S : Type 0) : Type 0 where
  pub queue : VirtQueue
  pub hal : S

module _ {S : Type 0} where
  -- the write of `self`'s fields
  abbrev pub set_queue : VirtQueue → Cmd (Driver S) (Unit {0})
  set_queue q = do d ← get; put (record d { queue = q })

  abbrev pub set_hal : S → Cmd (Driver S) (Unit {0})
  set_hal s = do d ← get; put (record d { hal = s })

  -- `self.desc_shadow[index]`
  abbrev pub read_shadow : ℕ → Cmd (Driver S) Descriptor
  read_shadow index = do d ← get; unwrap (get_elem? d.queue.desc_shadow index)

  abbrev pub write_shadow : ℕ → Descriptor → Cmd (Driver S) (Unit {0})
  write_shadow index e = do
    d ← get
    set_queue (record d.queue { desc_shadow = set d.queue.desc_shadow index e })

  -- `write_desc`
  unfoldable pub write_desc : ℕ → Cmd (Driver S) (Unit {0})
  write_desc index = do
    e ← read_shadow index
    d ← get
    assert (ltb index (length d.queue.desc))
    set_queue (record d.queue { desc = set d.queue.desc index e })

-- `can_pop`
unfoldable pub can_pop : VirtQueue → Bool
can_pop q = not (q.last_used_idx == q.used.idx)

-- `available_desc`
unfoldable pub available_desc : VirtQueue → ℕ
available_desc q =
    if q.indirect then (if q.num_used == q.size then 0 else q.size) else q.size - q.num_used
