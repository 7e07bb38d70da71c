-- ===== src/Queue/Device/Correct.antt =====
-- What the device gets from `pop_avail` of src/queue.rs, for a chain that the driver has posted.
use Prim.Native.Nat.{bit_or}
use virtio_drivers_and_devic.Prelude.{
  ℕ, zero, suc, ◌+◌, ◌-◌, ◌≤◌, ◌≡◌, ◌≢◌, refl, sym, ap, ap₂, ◌∙◌, arith, Bool, true, false, some,
  List, [], ◌∷◌, ◌++◌, length, get_elem?, bit_and,
}
use mathlib.Core.Path.{subst}
use virtio_drivers_and_devic.Error.{ok}
use virtio_drivers_and_devic.Hal.{
  DeviceHal, Buffer, BufferDirection, driver_to_device, device_to_driver, both,
}
use virtio_drivers_and_devic.Queue.Descriptor.{
  Request, input_output_iter, Descriptor, contains, next_flag, write_flag, indirect_flag,
}
use virtio_drivers_and_devic.Queue.State.{wrapping_add}
use virtio_drivers_and_devic.Queue.Chain.{at, Item, Holds, Posted, write_bit}
use virtio_drivers_and_devic.Queue.Pop.Loop.{AllNonempty, requests}
use virtio_drivers_and_devic.Queue.Device.{
  Device, DeviceVirtQueue, pop_one, push, pop_loop, pop_avail, finish_avail, peek_avail, next_token,
  can_pop,
}
use virtio_drivers_and_devic.Queue.Device.Walk.{Mapped, Mapped-trans, found, popped_one}

-- the flag that the device looks at
abbrev pub is_write : BufferDirection → Bool
is_write device_to_driver = true
is_write _ = false

-- What the flags of a descriptor tell the device, with and without a descriptor behind it.
flag_facts :
    (d : BufferDirection)
    → (contains (bit_or 0 (write_bit d)) next_flag ≡ false)
      × (contains (bit_or next_flag (write_bit d)) next_flag ≡ true)
      × (contains (bit_or 0 (write_bit d)) indirect_flag ≡ false)
      × (contains (bit_or next_flag (write_bit d)) indirect_flag ≡ false)
      × (contains (bit_or 0 (write_bit d)) write_flag ≡ is_write d)
      × (contains (bit_or next_flag (write_bit d)) write_flag ≡ is_write d)
flag_facts driver_to_device = (refl, refl, refl, refl, refl, refl)
flag_facts device_to_driver = (refl, refl, refl, refl, refl, refl)
flag_facts both = (refl, refl, refl, refl, refl, refl)

abbrev pub put_in : Buffer → Bool → List Buffer × List Buffer → List Buffer × List Buffer
put_in b true (reads, writes) = (reads, writes ++ (b ∷ []))
put_in b false (reads, writes) = (reads ++ (b ∷ []), writes)

-- the buffers of a chain for the device to read, and those for it to write, in order, each at the
-- place where the device finds its address
abbrev pub split : (ℕ → ℕ) → List Item → List Buffer × List Buffer → List Buffer × List Buffer
split place [] buffers = buffers
split place (x ∷ xs) buffers = split place xs (
    put_in (record { ptr = place x.addr + 0; len = x.request.buffer.len })
      (is_write x.request.direction) buffers)

-- No buffer for the device to read comes behind one for it to write.
abbrev pub InOrder : Bool → List Request → Type 0
InOrder written [] = Unit
InOrder written (r ∷ rs) =
    (written ≡ true → is_write r.direction ≡ true) × InOrder (is_write r.direction) rs

outputs-InOrder :
    (written : Bool) (outputs : List Buffer) → InOrder written (input_output_iter [] outputs)
unfolding input_output_iter
outputs-InOrder written [] = tt
outputs-InOrder written (output ∷ outputs) = (λ _. refl, outputs-InOrder true outputs)

-- The requests of a call of `add` are in order.
pub input_output_iter-InOrder :
    (inputs outputs : List Buffer) → InOrder false (input_output_iter inputs outputs)
unfolding input_output_iter
input_output_iter-InOrder [] outputs = outputs-InOrder false outputs
input_output_iter-InOrder (input ∷ inputs) outputs =
    (λ e. e, input_output_iter-InOrder inputs outputs)

no_writes :
    (written : Bool) (x : Item)
    → (written ≡ true → is_write x.request.direction ≡ true)
    → (buffers : List Buffer × List Buffer) → (written ≡ false → buffers.1 ≡ [])
    → is_write x.request.direction ≡ false
    → buffers.1 ≡ []
no_writes true x order buffers empty e = absurd (ground (arith, order refl))
no_writes false x order buffers empty e = empty refl

put_in-writes :
    (b : Buffer) (w : Bool) (buffers : List Buffer × List Buffer)
    → (w ≡ false → buffers.1 ≡ [])
    → w ≡ false
    → (put_in b w buffers).1 ≡ []
put_in-writes b true buffers h e = absurd (ground arith)
put_in-writes b false buffers h e = h e

module _ (H : DeviceHal) (place : ℕ → ℕ)
    (maps : (paddr n : ℕ) (direction : BufferDirection) (client_id : ℕ) (s : H.State)
      → (s' : H.State) × (H.dma_map paddr n direction client_id s ≡ ok (place paddr) s'))
    (unmaps : (paddr vaddr n : ℕ) (s : H.State) → (H.dma_unmap paddr vaddr n s).0 ≡ 0) where
  pushed :
      (b : Buffer) (w : Bool) (buffers : List Buffer × List Buffer) (d : Device H.State)
      → (w ≡ false → buffers.1 ≡ [])
      → push H b w buffers d ≡ ok (put_in b w buffers) d
  pushed b true (reads, writes) d h = refl
  pushed b false (reads, []) d h = refl
  pushed b false (reads, w ∷ ws) d h = absurd (nonempty (h refl))
    where
      nonempty : (w ∷ ws) ≡ [] → ⊥
      nonempty e = ground (arith, ap (λ (l : List Buffer). length l) e)

  -- one turn of the loop, at the slot of an item
  turn :
      (x : Item) (link : ℕ) (d : Device H.State)
      → Holds d.queue.desc x link
      → x.request.buffer.len ≢ 0
      → length d.queue.desc_mapped ≡ length d.queue.desc
      → contains (bit_or link (write_bit x.request.direction)) indirect_flag ≡ false
      → contains (bit_or link (write_bit x.request.direction)) write_flag
        ≡ is_write x.request.direction
      → (d' : Device H.State) × (pop_one H x.slot d
          ≡ ok
              (
                record { ptr = place x.addr + 0; len = x.request.buffer.len },
                is_write x.request.direction,
                next_token (at d.queue.desc x.slot),
              )
              d')
        × Mapped d d'
  turn x link d h nonempty n direct write =
      let (d', e, m) =
        popped_one H place maps unmaps x.slot d h.inside n (rw h.flags direct)
          (omega (arith, h.len)) in
      (
        d',
        e ∙ ap₂ (λ b w. ok (b, w, next_token (at d.queue.desc x.slot)) d') same_buffer same_flag,
        m,
      )
    where
      same_buffer :
          found place (at d.queue.desc x.slot)
          ≡ record { ptr = place x.addr + 0; len = x.request.buffer.len }
      same_buffer = ap₂ (λ p l. record { ptr = place p + 0; len = l }) h.addr h.len

      same_flag : contains (at d.queue.desc x.slot).flags write_flag ≡ is_write x.request.direction
      same_flag = ap (λ f. contains f write_flag) h.flags ∙ write

  -- the loop from the head of a chain on
  walk :
      (x : Item) (xs : List Item) (fuel : ℕ) (written : Bool) (buffers : List Buffer × List Buffer)
      (d : Device H.State)
      → Posted d.queue.desc (x ∷ xs)
      → AllNonempty (requests (x ∷ xs))
      → InOrder written (requests (x ∷ xs))
      → (written ≡ false → buffers.1 ≡ [])
      → length d.queue.desc_mapped ≡ length d.queue.desc
      → length (x ∷ xs) ≤ fuel
      → (d' : Device H.State) × (pop_loop H fuel (some x.slot) buffers d
          ≡ ok (some (split place (x ∷ xs) buffers)) d')
        × Mapped d d'
  unfolding pop_loop
  walk x xs zero written buffers d p nonempty order empty n room = absurd (omega arith)
  walk x [] (suc fuel) written buffers d p nonempty order empty n room =
      let f = flag_facts x.request.direction in
      let (d', e, m) = turn x 0 d p nonempty.0 n f.2 f.4 in
      (
        d',
        rw (e, pushed _ _ buffers d' (no_writes written x order.0 buffers empty), p.flags, f.0)
            refl,
        m,
      )
  walk x (y ∷ ys) (suc fuel) written buffers d (h, next, p) nonempty order empty n room =
      let f = flag_facts x.request.direction in
      let (d₁, e, m) = turn x next_flag d h nonempty.0 n f.3 f.5 in
      let b : Buffer = record { ptr = place x.addr + 0; len = x.request.buffer.len } in
      let w = is_write x.request.direction in
      let same = ap {A = DeviceVirtQueue} (λ q. q.desc) m.same_queue in
      let none_yet = no_writes written x order.0 buffers empty in
      let (d₂, e₂, m₂) =
        walk y ys fuel (is_write x.request.direction) (put_in b w buffers) d₁
          (subst (λ ds. Posted ds (y ∷ ys)) (sym same) p) nonempty.1 order.1
          (put_in-writes b w buffers none_yet)
          (m.same_length ∙ n ∙ sym (ap {A = List Descriptor} (λ l. length l) same)) (omega arith) in
      (
        d₂,
        rw (e, pushed b w buffers d₁ none_yet, h.flags, f.1, next, e₂) refl,
        Mapped-trans d d₁ d₂ m m₂,
      )

  -- The queue of a device that has taken a chain: its index is behind the chain, its mappings have
  -- changed, and nothing else.
  pub record Taken (d d' : Device H.State) : Type 0 where
    pub next_idx : d'.queue.avail_idx ≡ wrapping_add d.queue.avail_idx 1
    pub same_used : d'.queue.used ≡ d.queue.used
    pub same_last_used : d'.queue.last_used_idx ≡ d.queue.last_used_idx
    pub same_size : d'.queue.size ≡ d.queue.size
    pub same_mapped : length d'.queue.desc_mapped ≡ length d.queue.desc_mapped

  pub pop_avail-Posted :
      (x : Item) (xs : List Item) (fuel : ℕ) (d : Device H.State)
      → can_pop d.queue ≡ true
      → get_elem? d.queue.avail.ring (bit_and d.queue.avail_idx (d.queue.size - 1)) ≡ some x.slot
      → Posted d.queue.desc (x ∷ xs)
      → AllNonempty (requests (x ∷ xs))
      → InOrder false (requests (x ∷ xs))
      → length d.queue.desc_mapped ≡ length d.queue.desc
      → length (x ∷ xs) ≤ fuel
      → let (reads, writes) = split place (x ∷ xs) ([], []) in
        (d' : Device H.State) × (pop_avail H fuel d
          ≡ ok
              (some (some (record { read_buffers = reads; write_buffers = writes; head = x.slot })))
              d')
        × Taken d d'
  unfolding pop_avail finish_avail peek_avail
  pop_avail-Posted x xs fuel d ready head p nonempty order n room =
      let (d', e, m) = walk x xs fuel false ([], []) d p nonempty order (λ _. refl) n room in
      (
        record d' { queue = record d'.queue { avail_idx = wrapping_add d'.queue.avail_idx 1 } },
        rw (ready, head, e) refl,
        record {
          next_idx = ap {A = DeviceVirtQueue} (λ q. wrapping_add q.avail_idx 1) m.same_queue;
          same_used = ap {A = DeviceVirtQueue} (λ q. q.used) m.same_queue;
          same_last_used = ap {A = DeviceVirtQueue} (λ q. q.last_used_idx) m.same_queue;
          same_size = ap {A = DeviceVirtQueue} (λ q. q.size) m.same_queue;
          same_mapped = m.same_length;
        },
      )
