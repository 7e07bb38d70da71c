-- ===== src/Queue/Exchange.antt =====
-- A request on its way through both queues of src/queue.rs: the driver adds it, the device pops it
-- and marks it used, and the driver takes it back.
use mathlib.Core.Path.{subst}
use virtio_drivers_and_devic.Prelude.{
  ℕ, suc, ◌+◌, ◌-◌, ◌%◌, ◌^◌, ◌≤◌, ◌<◌, ◌≡◌, refl, sym, ap, ap₂, ◌∙◌, arith, inl, inr, true, false,
  not, ◌==◌, some, List, [], ◌∷◌, ◌++◌, length, set, length-set, drop, get_elem?,
  get_elem?-eq-get_or, get_or, get_or-set_self, bit_and, ltb,
}
use virtio_drivers_and_devic.Error.{ok}
use virtio_drivers_and_devic.Hal.{Hal, DeviceHal, Buffer, BufferDirection}
use virtio_drivers_and_devic.Queue.Descriptor.{Descriptor, Request, input_output_iter}
use virtio_drivers_and_devic.Queue.State.{
  VirtQueue, UsedElem, Driver, available_desc, ring_slot, wrapping_add, can_pop,
}
use virtio_drivers_and_devic.Queue.Chain.{Item, slots, Posted}
use virtio_drivers_and_devic.Queue.Valid.{IsValid, Flight, chain, token}
use virtio_drivers_and_devic.Queue.Add.{add}
use virtio_drivers_and_devic.Queue.Add.Loop.{AllSendable, items}
use virtio_drivers_and_devic.Queue.Add.Direct.{length-input_output_iter, ring_slot-lt}
use virtio_drivers_and_devic.Queue.Add.Correct.{Added, add-Added}
use virtio_drivers_and_devic.Queue.Pop.{pop_used}
use virtio_drivers_and_devic.Queue.Pop.Loop.{AllNonempty, requests, unshare_all}
use virtio_drivers_and_devic.Queue.Pop.Correct.{Popped, pop_used-PopOutcome, next_elem}
use virtio_drivers_and_devic.Queue.Device
use virtio_drivers_and_devic.Queue.Device.{
  Device, DeviceVirtQueue, DescriptorBuffers, pop_avail, add_used,
}
use virtio_drivers_and_devic.Queue.Device.Correct.{
  split, InOrder, input_output_iter-InOrder, pop_avail-Posted, Taken,
}

-- the device's queue with what the driver has written to the shared memory
abbrev pub seen_by_device : VirtQueue → DeviceVirtQueue → DeviceVirtQueue
seen_by_device q dq = record dq { desc = q.desc; avail = q.avail }

-- the driver's queue with what the device has written to it
abbrev pub seen_by_driver : DeviceVirtQueue → VirtQueue → VirtQueue
seen_by_driver dq q = record q { used = dq.used }

-- Device and driver have the same queue, and neither has anything left to pop.
pub record InStep (q : VirtQueue) (dq : DeviceVirtQueue) : Type 0 where
  pub same_size : dq.size ≡ q.size
  pub mapped_length : length dq.desc_mapped ≡ q.size
  pub used_length : length dq.used.ring ≡ q.size
  pub avail_caught_up : dq.avail_idx ≡ q.avail_idx
  pub used_caught_up : dq.last_used_idx ≡ q.last_used_idx
  pub avail_small : q.avail_idx < 2 ^ 16
  pub used_small : q.last_used_idx < 2 ^ 16

-- What the device writes to the used ring does not make the queue ill formed.
IsValid-used :
    (q : VirtQueue) (dq : DeviceVirtQueue) (free : List ℕ) (flights : List Flight)
    → length dq.used.ring ≡ q.size
    → IsValid q free flights
    → IsValid (seen_by_driver dq q) free flights
IsValid-used q dq free flights n v = record {
  width = v.width;
  size_pow = v.size_pow;
  size_small = v.size_small;
  shadow_length = v.shadow_length;
  desc_length = v.desc_length;
  avail_length = v.avail_length;
  used_length = n;
  direct = v.direct;
  free_linked = v.free_linked;
  owned = v.owned;
  counted = v.counted;
  in_use = v.in_use;
  posted = v.posted;
}

module _ (H : Hal) where
  requests-items :
      (rs : List Request) (is : List ℕ) (s : H.State)
      → length rs ≤ length is
      → requests (items H rs is s) ≡ rs
  requests-items [] is s h = refl
  requests-items (r ∷ rs) [] s h = absurd (omega arith)
  requests-items (r ∷ rs) (i ∷ is) s h = ap (λ l. r ∷ l) (requests-items rs is _ (omega arith))

length-requests : (xs : List Item) → length (requests xs) ≡ length xs
length-requests [] = refl
length-requests (x ∷ xs) = ap suc (length-requests xs)

sendable_nonempty : (rs : List Request) → AllSendable rs → AllNonempty rs
sendable_nonempty [] h = tt
sendable_nonempty (r ∷ rs) (h, hs) = (h.nonempty, sendable_nonempty rs hs)

-- An index that has moved by one differs from the old one.
moved : (i j : ℕ) → j < 2 ^ 16 → i ≡ wrapping_add j 1 → not (j == i) ≡ true
moved i j h e = ground arith

-- The slot at the head of a posted chain lies in the table.
head_inside :
    (ds : List Descriptor) (x : Item) (xs : List Item) → Posted ds (x ∷ xs) → x.slot < length ds
head_inside ds x [] h = h.inside
head_inside ds x (y ∷ ys) (h, e, p) = h.inside

module _ (H : Hal) where
  -- `pop_used`, when the device has returned the chain
  returned :
      (inputs outputs : List Buffer) (d : Driver H.State) (free : List ℕ) (f : Flight)
      (flights : List Flight) (n : ℕ)
      → IsValid d.queue free (f ∷ flights)
      → input_output_iter inputs outputs ≡ requests (chain f)
      → AllNonempty (requests (chain f))
      → can_pop d.queue ≡ true
      → next_elem d.queue ≡ record { id = token f; len = n }
      → (d' : Driver H.State) × (pop_used H (token f) inputs outputs d ≡ ok n d')
        × Popped H d d' free f flights
  returned inputs outputs d free f flights n v same nonempty ready elem =
      elim (pop_used-PopOutcome H inputs outputs d free [] f flights v same nonempty) [
        | inl (idle, e) ↦ absurd (ground (arith, ready, idle))
        | inr (inl (other_ready, other, e)) ↦ absurd (other (index ∙ small))
        | inr (inr (d', is_ready, hit, e, p)) ↦ (d', e ∙ ap (λ (x : UsedElem). ok x.len d') elem, p)
      ]
    where
      small : token f % 2 ^ 16 ≡ token f
      small = omega (
        arith,
        head_inside d.queue.desc_shadow f.first f.others v.posted.0,
        v.shadow_length,
        v.size_small,
      )

      index : (next_elem d.queue).id % 2 ^ 16 ≡ token f % 2 ^ 16
      index = ap (λ (x : UsedElem). x.id % 2 ^ 16) elem

module _ (D : DeviceHal) where
  -- the device after `add_used`
  abbrev pub marked : ℕ → ℕ → Device D.State → Device D.State
  marked head n e =
      let q = e.queue in
      let idx = wrapping_add q.last_used_idx 1 in
      record e {
        queue = record q {
          used = record q.used {
            ring =
                set q.used.ring (bit_and q.last_used_idx (q.size - 1))
                  (record { id = head; len = n % 2 ^ 32 });
            idx = idx;
          };
          last_used_idx = idx;
        };
      }

  pub add_used-marked :
      (head n : ℕ) (e : Device D.State)
      → bit_and e.queue.last_used_idx (e.queue.size - 1) < length e.queue.used.ring
      → add_used D head n e ≡ ok tt (marked head n e)
  unfolding add_used
  add_used-marked head n e h = rw (inside h) refl
    where
      inside :
          bit_and e.queue.last_used_idx (e.queue.size - 1) < length e.queue.used.ring
          → ltb (bit_and e.queue.last_used_idx (e.queue.size - 1)) (length e.queue.used.ring) ≡ true
      inside k = ground arith

module _ (H : Hal) (D : DeviceHal) (place : ℕ → ℕ)
    (maps : (paddr n : ℕ) (direction : BufferDirection) (client_id : ℕ) (s : D.State)
      → (s' : D.State) × (D.dma_map paddr n direction client_id s ≡ ok (place paddr) s'))
    (unmaps : (paddr vaddr n : ℕ) (s : D.State) → (D.dma_unmap paddr vaddr n s).0 ≡ 0) where
  -- the device, when the driver has written to the shared memory
  abbrev pub device_after : Driver H.State → Device D.State → Device D.State
  device_after d e = record e { queue = seen_by_device d.queue e.queue }

  -- the driver, when the device has
  abbrev pub driver_after : Device D.State → Driver H.State → Driver H.State
  driver_after e d = record d { queue = seen_by_driver e.queue d.queue }

  -- the device pops what the driver has added
  taken :
      (d d₁ : Driver H.State) (rs : List Request) (free : List ℕ) (flights : List Flight)
      (f : Flight) (e : Device D.State) (fuel : ℕ)
      → Added H d d₁ rs free flights f
      → InStep d.queue e.queue
      → AllNonempty (requests (chain f))
      → InOrder false (requests (chain f))
      → length (chain f) ≤ fuel
      → let (reads, writes) = split place (chain f) ([], []) in
        (e₁ : Device D.State) × (pop_avail D fuel (device_after d₁ e)
          ≡ ok
              (some
                (some (record { read_buffers = reads; write_buffers = writes; head = token f })))
              e₁)
        × Taken D place maps unmaps (device_after d₁ e) e₁
  unfolding Device.can_pop
  taken d d₁ rs free flights f e fuel a step nonempty order room =
      pop_avail-Posted D place maps unmaps f.first f.others fuel (device_after d₁ e) ready head
        a.shown nonempty order (omega (arith, step.mapped_length, a.valid.desc_length, a.same_size))
        room
    where
      inside : ring_slot d.queue d.queue.avail_idx < length d₁.queue.avail.ring
      inside = omega (
        arith,
        ring_slot-lt d.queue a.valid.width d.queue.avail_idx (sym a.same_size ∙ a.valid.size_pow),
        a.same_size,
        a.valid.avail_length,
      )

      ready : Device.can_pop (seen_by_device d₁.queue e.queue) ≡ true
      ready =
          moved d₁.queue.avail.idx e.queue.avail_idx
            (omega (arith, step.avail_caught_up, step.avail_small))
            (a.offers_idx ∙ ap (λ (n : ℕ). wrapping_add n 1) (sym step.avail_caught_up))

      head :
          get_elem? d₁.queue.avail.ring (bit_and e.queue.avail_idx (e.queue.size - 1))
          ≡ some (token f)
      head =
          ap₂ (λ i n. get_elem? d₁.queue.avail.ring (bit_and i (n - 1))) step.avail_caught_up
            step.same_size
          ∙ get_elem?-eq-get_or d₁.queue.avail.ring (ring_slot d.queue d.queue.avail_idx) 0 inside
          ∙ ap some a.offers

  -- What comes of a request that both sides have handled, with `n` bytes written by the device. The
  -- driver adds it and the device pops it: the buffers that it finds are the driver's, each under
  -- the address under which it was shared, those to read before those to write. The device marks it
  -- used, and the driver takes it back with the length that the device gave: its slots are free
  -- again, its buffers given back, and the queue well formed as before.
  abbrev pub Exchanged :
      List Buffer
      → List Buffer
      → ℕ
      → ℕ
      → Driver H.State
      → List ℕ
      → List Flight
      → Device D.State
      → Type 0
  Exchanged inputs outputs fuel n d free flights e =
      let rs = input_output_iter inputs outputs in
      (f : Flight) × (d₁ d₂ : Driver H.State) × (e₁ e₂ : Device D.State) × (chain f
        ≡ items H rs free d.hal)
      × (add H inputs outputs d ≡ ok (token f) d₁)
      × (pop_avail D fuel (device_after d₁ e)
          ≡ ok
              (some (
                some (record {
                  read_buffers = (split place (chain f) ([], [])).0;
                  write_buffers = (split place (chain f) ([], [])).1;
                  head = token f;
                })))
              e₁)
      × (add_used D (token f) n e₁ ≡ ok tt e₂)
      × (pop_used H (token f) inputs outputs (driver_after e₂ d₁) ≡ ok (n % 2 ^ 32) d₂)
      × IsValid d₂.queue (slots (chain f) ++ drop (length rs) free) flights
      × (d₂.hal ≡ unshare_all H (chain f) d₁.hal)

  exchanged :
      (inputs outputs : List Buffer) (d d₁ : Driver H.State) (free : List ℕ) (flights : List Flight)
      (f : Flight) (e e₁ : Device D.State) (n : ℕ)
      → Added H d d₁ (input_output_iter inputs outputs) free flights f
      → input_output_iter inputs outputs ≡ requests (chain f)
      → AllNonempty (requests (chain f))
      → InStep d.queue e.queue
      → Taken D place maps unmaps (device_after d₁ e) e₁
      → (e₂ : Device D.State) × (d₂ : Driver H.State) × (add_used D (token f) n e₁ ≡ ok tt e₂)
        × (pop_used H (token f) inputs outputs (driver_after e₂ d₁) ≡ ok (n % 2 ^ 32) d₂)
        × Popped H
            (driver_after e₂ d₁)
            d₂
            (drop (length (input_output_iter inputs outputs)) free)
            f
            flights
  unfolding can_pop
  exchanged inputs outputs d d₁ free flights f e e₁ n a same nonempty step t =
      let e₂ = marked D (token f) n e₁ in
      let (d₂, done, p) =
        returned H inputs outputs (driver_after e₂ d₁) _ f flights (n % 2 ^ 32)
          (IsValid-used d₁.queue e₂.queue _ _ ring_length a.valid) same nonempty ready elem in
      (e₂, d₂, add_used-marked D (token f) n e₁ inside, done, p)
    where
      old_length : length e₁.queue.used.ring ≡ d.queue.size
      old_length = ap (λ u. length u.ring) t.same_used ∙ step.used_length

      ring_length : length (marked D (token f) n e₁).queue.used.ring ≡ d₁.queue.size
      ring_length = length-set e₁.queue.used.ring _ _ ∙ old_length ∙ sym a.same_size

      last_used : e₁.queue.last_used_idx ≡ d₁.queue.last_used_idx
      last_used = t.same_last_used ∙ step.used_caught_up ∙ sym a.same_last_used

      same_slot :
          bit_and e₁.queue.last_used_idx (e₁.queue.size - 1)
          ≡ ring_slot d₁.queue d₁.queue.last_used_idx
      same_slot =
          ap₂ (λ i m. bit_and i (m - 1)) last_used (t.same_size ∙ step.same_size ∙ sym a.same_size)

      inside : bit_and e₁.queue.last_used_idx (e₁.queue.size - 1) < length e₁.queue.used.ring
      inside = omega (
        arith,
        same_slot,
        old_length,
        a.same_size,
        ring_slot-lt d₁.queue a.valid.width d₁.queue.last_used_idx a.valid.size_pow,
      )

      ready : not (d₁.queue.last_used_idx == wrapping_add e₁.queue.last_used_idx 1) ≡ true
      ready =
          moved _ d₁.queue.last_used_idx (omega (arith, step.used_small, a.same_last_used))
            (ap (λ (i : ℕ). wrapping_add i 1) last_used)

      elem :
          next_elem (driver_after (marked D (token f) n e₁) d₁).queue
          ≡ record { id = token f; len = n % 2 ^ 32 }
      elem =
          ap (λ i. get_or (marked D (token f) n e₁).queue.used.ring i (record { id = 0; len = 0 }))
            (sym same_slot)
          ∙ get_or-set_self e₁.queue.used.ring (bit_and e₁.queue.last_used_idx (e₁.queue.size - 1))
              (record { id = token f; len = n % 2 ^ 32 }) (record { id = 0; len = 0 }) inside

  -- On a well-formed queue, which has no indirect descriptors, with a device in step whose platform
  -- maps every address at a fixed place and unmaps without error, a request of at least one and at
  -- most `available_desc` buffers, none of them empty or of `2 ^ 32` bytes or more, goes through
  -- both queues as `Exchanged` says: no call fails or panics.
  pub exchange-Exchanged :
      (inputs outputs : List Buffer) (fuel n : ℕ) (d : Driver H.State) (free : List ℕ)
      (flights : List Flight) (e : Device D.State)
      → IsValid d.queue free flights
      → InStep d.queue e.queue
      → AllSendable (input_output_iter inputs outputs)
      → 0 < length inputs + length outputs
      → length inputs + length outputs ≤ available_desc d.queue
      → length inputs + length outputs ≤ fuel
      → Exchanged inputs outputs fuel n d free flights e
  unfolding available_desc
  exchange-Exchanged inputs outputs fuel n d free flights e v step sendable some_buffer room
        enough =
      let rs = input_output_iter inputs outputs in
      let total = length-input_output_iter inputs outputs in
      let (d₁, f, done, a) =
        add-Added H inputs outputs d free flights v sendable some_buffer room in
      let same : requests (chain f) ≡ rs =
        ap requests a.chain_items
        ∙ requests-items H rs free d.hal (ground (arith, total, v.counted, v.direct)) in
      let nonempty = subst AllNonempty (sym same) (sendable_nonempty rs sendable) in
      let (e₁, popped, t) =
        taken d d₁ rs free flights f e fuel a step nonempty
          (subst (InOrder false) (sym same) (input_output_iter-InOrder inputs outputs))
          (omega (
            arith,
            total,
            enough,
            length-requests (chain f),
            ap (λ (l : List Request). length l) same,
          )) in
      let (e₂, d₂, marked_used, back, p) =
        exchanged inputs outputs d d₁ free flights f e e₁ n a (sym same) nonempty step t in
      (f, d₁, d₂, e₁, e₂, a.chain_items, done, popped, marked_used, back, p.valid, p.unshared)
