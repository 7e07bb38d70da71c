-- ===== src/Queue/Device/Copy/Served.antt =====
-- What `poll` and `wait_pop_add_notify` of a device (src/queue.rs) do with a chain that the driver
-- has posted.
use virtio_drivers_and_devic.Prelude.{
  ℕ, ◌+◌, ◌-◌, ◌<◌, ◌≤◌, ◌≡◌, ◌⊎◌, inl, inr, refl, ap, ap₂, ◌∙◌, arith, Bool-cases, leb, bit_and,
  if◌then◌else◌, true, false, Option, some, List, [], ◌∷◌, length, get_elem?,
}
use virtio_drivers_and_devic.Error.{Cmd, and_then, ok, panic}
use virtio_drivers_and_devic.Hal.{DeviceHal, Buffer, BufferDirection}
use virtio_drivers_and_devic.Queue.Chain.{Item, Posted}
use virtio_drivers_and_devic.Queue.Pop.Loop.{requests, AllNonempty}
use virtio_drivers_and_devic.Queue.Device.{
  DeviceVirtQueue, Device, can_pop, should_notify, pop_avail,
}
use virtio_drivers_and_devic.Queue.Device.Correct.{split, InOrder, Taken, pop_avail-Posted}
use virtio_drivers_and_devic.Queue.Device.Open.{DeviceTransport}
use virtio_drivers_and_devic.Queue.Device.Copy.{
  World, give_back, read_all, reply, poll, copy_in, wait_pop_add_notify,
}
use virtio_drivers_and_devic.Queue.Exchange.{marked, add_used-marked}

-- A chain of the driver that a device can take next, and that it is able to give back.
pub record Waiting (q : DeviceVirtQueue) (x : Item) (xs : List Item) : Type 0 where
  pub ready : can_pop q ≡ true
  pub head : get_elem? q.avail.ring (bit_and q.avail_idx (q.size - 1)) ≡ some x.slot
  pub posted : Posted q.desc (x ∷ xs)
  pub nonempty : AllNonempty (requests (x ∷ xs))
  pub in_order : InOrder false (requests (x ∷ xs))
  pub mapped : length q.desc_mapped ≡ length q.desc
  pub room : bit_and q.last_used_idx (q.size - 1) < length q.used.ring

abbrev pub total : List (List ℕ) → ℕ
total [] = 0
total (i ∷ is) = length i + total is

module _ (H : DeviceHal) (T : DeviceTransport) where
  -- the transport hears of it, unless the driver does not want to be notified
  abbrev pub notified : World H T → World H T
  notified w =
      if should_notify w.device.queue
      then record w { transport = T.notify w.device.queue.queue_idx w.transport }
      else w

  -- the chain with this head is given back, with this length
  abbrev pub given_back : ℕ → ℕ → Device H.State → World H T → World H T
  given_back head n d w = notified (record w { device = marked H head n d })

  -- the inputs one after the other, from an address on
  abbrev pub written : ℕ → List (List ℕ) → H.State → H.State
  written ptr [] s = s
  written ptr (i ∷ is) s = written (ptr + length i) is (H.write ptr i s)

  give_back-given_back :
      (head n : ℕ) (w : World H T) (d : Device H.State)
      → bit_and d.queue.last_used_idx (d.queue.size - 1) < length d.queue.used.ring
      → give_back H T head n (record w { device = d }) ≡ ok tt (given_back head n d w)
  give_back-given_back head n w d h = rw (add_used-marked H head n d h) refl

  copy_in-written :
      (b : Buffer) (copied : ℕ) (inputs : List (List ℕ)) (w : World H T)
      → copied + total inputs ≤ b.len
      → copy_in H T b copied inputs w
        ≡ ok (copied + total inputs) (record w {
          device = record w.device { hal = written (b.ptr + copied) inputs w.device.hal };
        })
  unfolding copy_in
  copy_in-written b copied [] w h = ap (λ n. ok n w) (omega arith)
  copy_in-written b copied (i ∷ is) w h =
      rw
        (
          fits,
          copy_in-written b (copied + length i) is
              (record w {
                device = record w.device { hal = H.write (b.ptr + copied) i w.device.hal };
              })
              (omega arith),
        )
        (ap₂
          (λ (n ptr : ℕ). ok n (record w {
            device = record w.device {
              hal = written ptr is (H.write (b.ptr + copied) i w.device.hal);
            };
          }))
          (omega arith) (omega arith))
    where
      fits : leb (copied + length i) b.len ≡ true
      fits = ground arith

  copy_in-panic :
      (b : Buffer) (copied : ℕ) (inputs : List (List ℕ)) (w : World H T)
      → copied ≤ b.len
      → b.len < copied + total inputs
      → copy_in H T b copied inputs w ≡ panic
  unfolding copy_in
  copy_in-panic b copied [] w l h = absurd (omega arith)
  copy_in-panic b copied (i ∷ is) w l h = elim (Bool-cases (leb (copied + length i) b.len)) [
    | inl fits ↦
        rw
          (
            fits,
            copy_in-panic b (copied + length i) is
                (record w {
                  device = record w.device { hal = H.write (b.ptr + copied) i w.device.hal };
                })
                (ground arith) (omega arith),
          )
          refl
    | inr over ↦ rw over refl
  ]

module _ (H : DeviceHal) (T : DeviceTransport) (place : ℕ → ℕ)
    (maps : (paddr n : ℕ) (direction : BufferDirection) (client_id : ℕ) (s : H.State)
      → (s' : H.State) × (H.dma_map paddr n direction client_id s ≡ ok (place paddr) s'))
    (unmaps : (paddr vaddr n : ℕ) (s : H.State) → (H.dma_unmap paddr vaddr n s).0 ≡ 0) (x : Item)
    (xs : List Item) (fuel : ℕ) (w : World H T) (waiting : Waiting w.device.queue x xs)
    (enough : length (x ∷ xs) ≤ fuel) where
  -- the chain, taken
  taken :
      let (reads, writes) = split place (x ∷ xs) ([], []) in
      (d : Device H.State) × (pop_avail H fuel w.device
        ≡ ok
            (some (some (record { read_buffers = reads; write_buffers = writes; head = x.slot })))
            d)
      × Taken H place maps unmaps w.device d
  taken =
      pop_avail-Posted H place maps unmaps x xs fuel w.device waiting.ready waiting.head
        waiting.posted waiting.nonempty waiting.in_order waiting.mapped enough

  room_left :
      (d : Device H.State)
      → Taken H place maps unmaps w.device d
      → bit_and d.queue.last_used_idx (d.queue.size - 1) < length d.queue.used.ring
  room_left d t = rw (t.same_last_used, t.same_size, t.same_used) waiting.room

  -- Where the platform maps every address at a fixed place and unmaps without error, `poll` of a
  -- chain that waits, has at most `fuel` descriptors, and nothing for the device to write, hands
  -- the handler the bytes of all its buffers, in order, and gives the chain back with length 0,
  -- whatever the handler returns.
  pub poll-Waiting {ℓ} :
      {W A : Type ℓ} (handler : List ℕ → Cmd W (Option A)) (c : W)
      → (split place (x ∷ xs) ([], [])).1 ≡ []
      → (d : Device H.State) × Taken H place maps unmaps w.device d
        × (poll H T fuel handler (w, c)
            ≡ reply H T
                (handler (read_all H T (split place (x ∷ xs) ([], [])).0 d.hal) c)
                (ok tt (given_back H T x.slot 0 d w)))
  unfolding poll
  poll-Waiting handler c reads_only =
      let (d, is, t) = taken in
      (d, t, rw (is, reads_only, give_back-given_back H T x.slot 0 w d (room_left d t)) refl)

  -- Where the platform maps every address at a fixed place and unmaps without error, and a chain
  -- waits that has at most `fuel` descriptors, nothing for the device to read and the first buffer
  -- `b`, `wait_pop_add_notify` writes the inputs to that buffer, one after the other, and gives the
  -- chain back with the sum of their lengths if they fit, and panics if they do not.
  pub wait_pop_add_notify-Waiting :
      (inputs : List (List ℕ)) (b : Buffer) (bs : List Buffer)
      → split place (x ∷ xs) ([], []) ≡ ([], b ∷ bs)
      → (d : Device H.State) × Taken H place maps unmaps w.device d
        × (((total inputs ≤ b.len)
              × (wait_pop_add_notify H T fuel inputs w
                  ≡ ok (some tt) (
                      given_back H T x.slot
                        (total inputs)
                        (record d { hal = written H T b.ptr inputs d.hal })
                        w)))
            ⊎ ((b.len < total inputs) × (wait_pop_add_notify H T fuel inputs w ≡ panic)))
  unfolding wait_pop_add_notify
  wait_pop_add_notify-Waiting inputs b bs writes_only =
      let (d, is, t) = taken in
      (
        d,
        t,
        elim (Bool-cases (leb (total inputs) b.len)) [
          | inl fits ↦ inl (
            ground arith,
            rw
                (
                  waiting.ready,
                  is,
                  writes_only,
                  copy_in-written H T b 0 inputs (record w { device = d }) (ground arith),
                )
                (ap (λ r. and_then r (λ _. ok (some tt)))
                  (ap₂
                      (λ (n ptr : ℕ).
                        give_back H T x.slot n
                          (record w { device = record d { hal = written H T ptr inputs d.hal } }))
                      (omega arith) (omega arith)
                    ∙ give_back-given_back H T x.slot (total inputs) w
                        (record d { hal = written H T b.ptr inputs d.hal }) (room_left d t))),
          )
          | inr over ↦ inr (
            ground arith,
            rw
                (
                  waiting.ready,
                  is,
                  writes_only,
                  copy_in-panic H T b 0 inputs (record w { device = d }) (omega arith)
                      (ground arith),
                )
                refl,
          )
        ],
      )
