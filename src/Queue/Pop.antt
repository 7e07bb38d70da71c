-- ===== src/Queue/Pop.antt =====
-- `pop_used`, `peek_used` and `recycle_descriptors` of src/queue.rs, and its notification flags.
pub mod Loop
pub mod Correct
use virtio_drivers_and_devic.Prelude.{
  ℕ, ◌+◌, ◌-◌, ◌*◌, ◌%◌, ◌^◌, ◌==◌, ltb, leb, if◌then◌else◌, not, bit_and, Bool, true, false,
  Option, none, some, List, [], ◌∷◌, length, get_elem?, set,
}
use virtio_drivers_and_devic.Error.{
  Cmd, Error, not_ready, wrong_token, ◌>>=◌, ◌>>◌, get, put, pure, fail, assert, unwrap,
}
use virtio_drivers_and_devic.Hal.{Hal, Buffer, driver_to_device}
use virtio_drivers_and_devic.Queue.Descriptor.{
  Descriptor, Request, contains, unset_buf, next_of, input_output_iter, indirect_flag,
  size_of_descriptor,
}
use virtio_drivers_and_devic.Queue.State.{
  VirtQueue, UsedElem, Driver, set_queue, set_hal, read_shadow, write_shadow, write_desc,
  wrapping_add, ring_slot, can_pop,
}

-- `peek_used`; the outer `none` is an index out of range
unfoldable pub peek_used : VirtQueue → Option (Option ℕ)
peek_used q =
    if can_pop q
    then elim (get_elem? q.used.ring (ring_slot q q.last_used_idx)) [
      | none ↦ none
      | some e ↦ some (some (e.id % 2 ^ 16))
    ]
    else some none

-- `should_notify`
unfoldable pub should_notify : VirtQueue → Bool
should_notify q =
    if q.event_idx
    then leb (wrapping_add q.used.avail_event 1) q.avail_idx
    else bit_and q.used.flags 1 == 0

-- `set_dev_notify`
unfoldable pub set_dev_notify : Bool → VirtQueue → VirtQueue
set_dev_notify enable q =
    if not q.event_idx
    then record q { avail = record q.avail { flags = if enable then 0 else 1 } }
    else q

-- `if next.is_none() { desc.next = original_free_head; }`
abbrev pub link_last : Option ℕ → ℕ → Descriptor → Descriptor
link_last none original e = record e { next = original }
link_last (some _) original e = e

abbrev pub is_none {ℓ} : {A : Type ℓ} → Option A → Bool
is_none none = true
is_none (some _) = false

module _ (H : Hal) where
  -- `self.num_used -= 1`, which panics at 0
  abbrev pub decrease_num_used : Cmd (Driver H.State) (Unit {0})
  decrease_num_used = do
    d ← get
    assert (ltb 0 d.queue.num_used)
    set_queue (record d.queue { num_used = d.queue.num_used - 1 })

  abbrev pub unshare : ℕ → Request → Cmd (Driver H.State) (Unit {0})
  unshare paddr r = do d ← get; set_hal (H.unshare paddr r.buffer r.direction d.hal)

  -- one turn of the direct loop of `recycle_descriptors`; the result is the new `next`
  unfoldable pub recycle_one : ℕ → Request → Option ℕ → Cmd (Driver H.State) (Option ℕ)
  unfolding write_desc
  recycle_one original r next = do
    assert (not (r.buffer.len == 0))
    index ← unwrap next
    old ← read_shadow index
    let e = unset_buf old
    decrease_num_used
    let following = next_of e
    write_shadow index (link_last following original e)
    write_desc index
    unshare old.addr r
    pure following

  -- the direct loop of `recycle_descriptors`, with the variable `next`
  unfoldable pub recycle_loop : ℕ → List Request → Option ℕ → Cmd (Driver H.State) (Option ℕ)
  recycle_loop original [] next = pure next
  recycle_loop original (r ∷ rs) next = do
    following ← recycle_one original r next
    recycle_loop original rs following

  -- the `else` branch of `recycle_descriptors`
  unfoldable pub recycle_direct : ℕ → ℕ → List Request → Cmd (Driver H.State) (Unit {0})
  recycle_direct original head rs = do
    next ← recycle_loop original rs (some head)
    assert (is_none next)

  -- the loop over the indirect list in `recycle_descriptors`
  unfoldable pub unshare_table :
      List Request → ℕ → List Descriptor → Cmd (Driver H.State) (Unit {0})
  unshare_table [] i table = pure tt
  unshare_table (r ∷ rs) i table = do
    assert (not (r.buffer.len == 0))
    e ← unwrap (get_elem? table i)
    unshare e.addr r
    unshare_table rs (i + 1) table

  -- the `if` branch of `recycle_descriptors`
  unfoldable pub recycle_indirect : ℕ → ℕ → List Request → Cmd (Driver H.State) (Unit {0})
  unfolding unset_buf unshare_table
  recycle_indirect original head rs = do
    d ← get
    entry ← unwrap (get_elem? d.queue.indirect_lists head)
    set_queue (record d.queue { indirect_lists = set d.queue.indirect_lists head none })
    (ptr, table) ← unwrap entry
    old ← read_shadow head
    decrease_num_used
    write_shadow head (record (unset_buf old) { next = original })
    unshare old.addr (record {
      buffer = record { ptr = ptr; len = size_of_descriptor * length table };
      direction = driver_to_device;
    })
    assert (length table == length rs)
    unshare_table rs 0 table

  -- `recycle_descriptors`
  unfoldable pub recycle_descriptors :
      ℕ → List Buffer → List Buffer → Cmd (Driver H.State) (Unit {0})
  recycle_descriptors head inputs outputs = do
    d ← get
    let original = d.queue.free_head
    set_queue (record d.queue { free_head = head })
    head_desc ← read_shadow head
    if contains head_desc.flags indirect_flag
        then recycle_indirect original head (input_output_iter inputs outputs)
        else recycle_direct original head (input_output_iter inputs outputs)

  -- the end of `pop_used`: `last_used_idx`, and `used_event` with it
  unfoldable pub finish_pop : ℕ → Cmd (Driver H.State) ℕ
  finish_pop len = do
    d ← get
    let q = d.queue
    let idx = wrapping_add q.last_used_idx 1
    set_queue (record q {
      last_used_idx = idx;
      avail = if q.event_idx then record q.avail { used_event = idx } else q.avail;
    })
    pure len

  -- `pop_used`
  unfoldable pub pop_used : ℕ → List Buffer → List Buffer → Cmd (Driver H.State) ℕ
  pop_used token inputs outputs = do
    d ← get
    if not (can_pop d.queue) then fail not_ready else do
      elem ← unwrap (get_elem? d.queue.used.ring (ring_slot d.queue d.queue.last_used_idx))
      let index = elem.id % 2 ^ 16
      if not (index == token)
          then fail wrong_token
          else do recycle_descriptors index inputs outputs; finish_pop elem.len
