-- ===== src/Queue/Tests/Copies.antt =====
-- A device that copies the bytes of a request of one buffer, for src/queue.rs.
use virtio_drivers_and_devic.Prelude.{
  ℕ, ◌+◌, ◌≡◌, ◌⊎◌, ◌≤◌, ◌<◌, refl, arith, none, some, Option, List, [], ◌∷◌, replicate, true,
  length,
}
use virtio_drivers_and_devic.Error.{ok, panic, Run}
use virtio_drivers_and_devic.Hal.{DeviceHal, BufferDirection, driver_to_device, device_to_driver}
use virtio_drivers_and_devic.Queue.Chain.{Item}
use virtio_drivers_and_devic.Queue.Device.{Device, DeviceVirtQueue, can_pop}
use virtio_drivers_and_devic.Queue.Device.Correct.{Taken, split}
use virtio_drivers_and_devic.Queue.Device.Open.{DeviceTransport}
use virtio_drivers_and_devic.Queue.Device.Copy.{Serving, poll, reply, read_all, wait_pop_add_notify}
use virtio_drivers_and_devic.Queue.Device.Copy.Served.{
  Waiting, total, given_back, written, poll-Waiting, wait_pop_add_notify-Waiting,
}
use virtio_drivers_and_devic.Queue.Tests.{empty_queue, buffer}

-- a device to which all memory is mapped, and that counts the bytes written
abbrev sevens : DeviceHal
sevens = record {
  State = ℕ;
  dma_map = λ paddr n direction client_id s. ok paddr s;
  dma_unmap = λ paddr vaddr n s. (0, s);
  read = λ b s. replicate b.len 7;
  write = λ p bytes s. s + length bytes;
}

abbrev quiet : DeviceTransport
quiet = record {
  State = ℕ;
  get_client_id = λ t. 7;
  max_queue_size = λ idx t. (4, t);
  requires_legacy_layout = λ t. true;
  queue_get = λ idx t. ((4096, 4160, 8192), t);
  notify = λ idx t. t + 1;
}

-- a queue on which a buffer of 16 bytes at address 4196 waits, with the given flags
abbrev offered : ℕ → DeviceVirtQueue
offered flags = record {
  size = 4;
  desc = replicate 4 (record { addr = 4196; len = 16; flags = flags; next = 0 });
  avail = record empty_queue.avail { idx = 1 };
  used = empty_queue.used;
  queue_idx = 0;
  avail_idx = 0;
  last_used_idx = 0;
  desc_mapped = replicate 4 none;
  client_id = 7;
}

abbrev serving : ℕ → Serving ℕ ℕ
serving flags = record { device = record { queue = offered flags; hal = 0 }; transport = 0 }

abbrev item : BufferDirection → Item
item direction = record {
  slot = 0;
  addr = 4196;
  request = record { buffer = buffer 100; direction = direction };
}

offered_ready : (flags : ℕ) → can_pop (offered flags) ≡ true
unfolding can_pop
offered_ready flags = refl

to_read : Waiting (offered 0) (item driver_to_device) []
to_read = record {
  ready = offered_ready 0;
  head = refl;
  posted = record { inside = omega arith; addr = refl; len = refl; flags = refl };
  nonempty = (omega arith, tt);
  in_order = (λ e. e, tt);
  mapped = refl;
  room = omega arith;
}

to_write : Waiting (offered 2) (item device_to_driver) []
to_write = record {
  ready = offered_ready 2;
  head = refl;
  posted = record { inside = omega arith; addr = refl; len = refl; flags = refl };
  nonempty = (omega arith, tt);
  in_order = (λ e. refl, tt);
  mapped = refl;
  room = omega arith;
}

-- a handler that counts the bytes
abbrev count_bytes : List ℕ → ℕ → Run ℕ (Option ℕ)
count_bytes bytes n = ok (some (length bytes)) (n + 1)

-- `poll-Waiting` applies to the buffer to read.
poll-Waiting_example :
    (d : Device ℕ) × Taken sevens
      (λ p. p)
      (λ p n b c s. (s, refl))
      (λ p v n s. refl)
      (serving 0).device
      d
    × (poll sevens quiet 4 count_bytes (serving 0, 0)
        ≡ reply sevens quiet
            (count_bytes
              (read_all sevens quiet (split (λ p. p) (item driver_to_device ∷ []) ([], [])).0 d.hal)
              0)
            (ok tt (given_back sevens quiet 0 0 d (serving 0))))
poll-Waiting_example =
    poll-Waiting sevens quiet (λ p. p) (λ p n b c s. (s, refl)) (λ p v n s. refl)
      (item driver_to_device) [] 4 (serving 0) to_read (omega arith) count_bytes 0 refl

-- `wait_pop_add_notify-Waiting` applies to the buffer to write and to three bytes.
wait_pop_add_notify-Waiting_example :
    (d : Device ℕ) × Taken sevens
      (λ p. p)
      (λ p n b c s. (s, refl))
      (λ p v n s. refl)
      (serving 2).device
      d
    × (((total ((1 ∷ 2 ∷ []) ∷ (3 ∷ []) ∷ []) ≤ 16)
          × (wait_pop_add_notify sevens quiet 4 ((1 ∷ 2 ∷ []) ∷ (3 ∷ []) ∷ []) (serving 2)
              ≡ ok (some tt) (
                  given_back sevens quiet 0
                    (total ((1 ∷ 2 ∷ []) ∷ (3 ∷ []) ∷ []))
                    (record d {
                      hal = written sevens quiet 4196 ((1 ∷ 2 ∷ []) ∷ (3 ∷ []) ∷ []) d.hal;
                    })
                    (serving 2))))
        ⊎ ((16 < total ((1 ∷ 2 ∷ []) ∷ (3 ∷ []) ∷ []))
            × (wait_pop_add_notify sevens quiet 4 ((1 ∷ 2 ∷ []) ∷ (3 ∷ []) ∷ []) (serving 2)
                ≡ panic)))
wait_pop_add_notify-Waiting_example =
    wait_pop_add_notify-Waiting sevens quiet (λ p. p) (λ p n b c s. (s, refl)) (λ p v n s. refl)
      (item device_to_driver) [] 4 (serving 2) to_write (omega arith) ((1 ∷ 2 ∷ []) ∷ (3 ∷ []) ∷ [])
      (record { ptr = 4196; len = 16 }) [] refl
