-- ===== src/Queue/Add.antt =====
-- `add`, `add_direct` and `add_indirect` of src/queue.rs.
pub mod Loop
pub mod Direct
pub mod Correct
use virtio_drivers_and_devic.Prelude.{
  ℕ, ◌+◌, ◌-◌, ◌*◌, ◌%◌, ◌^◌, ◌==◌, ltb, leb, if◌then◌else◌, not, ◌&&◌, ◌||◌, Bool, Option, none,
  some, List, [], ◌∷◌, length, get_elem?, set, replicate, is_some,
}
use virtio_drivers_and_devic.Error.{
  Cmd, Error, queue_full, invalid_param, ◌>>=◌, ◌>>◌, get, put, pure, fail, assert, unwrap,
}
use virtio_drivers_and_devic.Hal.{Hal, Buffer, BufferDirection, driver_to_device}
use virtio_drivers_and_devic.Queue.Descriptor.{
  Descriptor, zeroed, Request, set_buf, input_output_iter, next_flag, indirect_flag, remove,
  size_of_descriptor,
}
use virtio_drivers_and_devic.Queue.State.{
  VirtQueue, Driver, set_queue, set_hal, read_shadow, write_shadow, write_desc, wrapping_add,
  ring_slot,
}

-- `is_empty`
abbrev pub is_empty {ℓ} : {A : Type ℓ} → List A → Bool
is_empty xs = length xs == 0

-- the second test of `add`
abbrev pub has_no_room : VirtQueue → ℕ → Bool
has_no_room q needed =
    ltb q.size (q.num_used + 1)
    || ltb q.size needed
    || (not q.indirect && ltb q.size (q.num_used + needed))

module _ (H : Hal) where
  -- one turn of the loop of `add_direct`: the slot that it fills
  unfoldable pub add_descriptor : Request → Cmd (Driver H.State) ℕ
  unfolding write_desc set_buf
  add_descriptor r = do
    assert (not (r.buffer.len == 0))
    d ← get
    let slot = d.queue.free_head
    old ← read_shadow slot
    (e, s) ← unwrap (set_buf H old r next_flag d.hal)
    set_hal s
    write_shadow slot e
    d ← get
    set_queue (record d.queue { free_head = e.next })
    write_desc slot
    pure slot

  -- the loop of `add_direct`, with the variable `last`
  unfoldable pub add_loop : List Request → ℕ → Cmd (Driver H.State) ℕ
  add_loop [] last = pure last
  add_loop (r ∷ rs) last = do slot ← add_descriptor r; add_loop rs slot

  -- `self.num_used += n as u16`, which panics on overflow
  abbrev pub increase_num_used : ℕ → Cmd (Driver H.State) (Unit {0})
  increase_num_used n = do
    d ← get
    let total = d.queue.num_used + n % 2 ^ 16
    assert (ltb total (2 ^ 16))
    set_queue (record d.queue { num_used = total })

  -- `add_direct`
  unfoldable pub add_direct : List Buffer → List Buffer → Cmd (Driver H.State) ℕ
  unfolding write_desc
  add_direct inputs outputs = do
    d ← get
    let head = d.queue.free_head
    last ← add_loop (input_output_iter inputs outputs) head
    e ← read_shadow last
    write_shadow last (record e { flags = remove e.flags next_flag })
    write_desc last
    increase_num_used (length inputs + length outputs)
    pure head

  -- the loop that fills the indirect list, from index `i` on
  unfoldable pub fill_indirect :
      List Request → ℕ → List Descriptor → Cmd (Driver H.State) (List Descriptor)
  fill_indirect [] i table = pure table
  fill_indirect (r ∷ rs) i table = do
    d ← get
    old ← unwrap (get_elem? table i)
    (e, s) ← unwrap (set_buf H old r next_flag d.hal)
    set_hal s
    fill_indirect rs (i + 1) (set table i (record e { next = (i + 1) % 2 ^ 16 }))

  -- `add_indirect`
  unfoldable pub add_indirect : List Buffer → List Buffer → Cmd (Driver H.State) ℕ
  unfolding write_desc fill_indirect
  add_indirect inputs outputs = do
    d ← get
    let head = d.queue.free_head
    let n = length inputs + length outputs
    let (block, s₁) = H.alloc (size_of_descriptor * n) d.hal
    set_hal s₁
    ptr ← unwrap block
    table ← fill_indirect (input_output_iter inputs outputs) 0 (replicate n zeroed)
    end ← unwrap (get_elem? table (n - 1))
    let list = set table (n - 1) (record end { flags = remove end.flags next_flag })
    d ← get
    old_list ← unwrap (get_elem? d.queue.indirect_lists head)
    assert (not (is_some old_list))
    set_queue
        (record d.queue { indirect_lists = set d.queue.indirect_lists head (some (ptr, list)) })
    direct_desc ← read_shadow head
    d ← get
    set_queue (record d.queue { free_head = direct_desc.next })
    (e, s₂) ← unwrap (
        set_buf H direct_desc
          (record {
            buffer = record { ptr = ptr; len = size_of_descriptor * n };
            direction = driver_to_device;
          })
          indirect_flag d.hal)
    set_hal s₂
    write_shadow head e
    write_desc head
    increase_num_used 1
    pure head

  -- the end of `add`: offers the chain to the device
  unfoldable pub offer : ℕ → Cmd (Driver H.State) ℕ
  offer head = do
    d ← get
    let q = d.queue
    let slot = ring_slot q q.avail_idx
    assert (ltb slot (length q.avail.ring))
    let idx = wrapping_add q.avail_idx 1
    set_queue (record q {
      avail = record q.avail { ring = set q.avail.ring slot head; idx = idx };
      avail_idx = idx;
    })
    pure head

  -- the choice that `add` makes between the two
  unfoldable pub add_chain : List Buffer → List Buffer → Cmd (Driver H.State) ℕ
  add_chain inputs outputs d =
      if d.queue.indirect && ltb 1 (length inputs + length outputs)
      then add_indirect inputs outputs d
      else add_direct inputs outputs d

  -- `add`
  unfoldable pub add : List Buffer → List Buffer → Cmd (Driver H.State) ℕ
  add inputs outputs = do
    d ← get
    let needed = length inputs + length outputs
    if is_empty inputs && is_empty outputs
        then fail invalid_param
        else if has_no_room d.queue needed
        then fail queue_full
        else do head ← add_chain inputs outputs; offer head
