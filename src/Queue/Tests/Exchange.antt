-- ===== src/Queue/Tests/Exchange.antt =====
-- A driver and a device on one queue of src/queue.rs.
use virtio_drivers_and_devic.Prelude.{ℕ, ◌≡◌, refl, arith, none, [], ◌∷◌, replicate, true}
use virtio_drivers_and_devic.Error.{ok}
use virtio_drivers_and_devic.Hal.{DeviceHal}
use virtio_drivers_and_devic.Queue.Device.{Device, pop_avail, can_pop}
use virtio_drivers_and_devic.Queue.Device.Cycle.{pop_avail-Cyclic}
use virtio_drivers_and_devic.Queue.Exchange.{Exchanged, InStep, exchange-Exchanged}
use virtio_drivers_and_devic.Queue.Tests.{
  counting, empty_queue, empty_driver, empty_driver-IsValid, buffer, two_requests-AllSendable,
  two_fit,
}

-- a device to which all memory is mapped
abbrev flat : DeviceHal
flat = record {
  State = ℕ;
  dma_map = λ paddr n direction client_id s. ok paddr s;
  dma_unmap = λ paddr vaddr n s. (0, s);
  read = λ b s. [];
  write = λ p bytes s. s;
}

abbrev idle_device : Device ℕ
idle_device = record {
  queue = record {
    size = 4;
    desc = empty_queue.desc;
    avail = empty_queue.avail;
    used = empty_queue.used;
    queue_idx = 0;
    avail_idx = 0;
    last_used_idx = 0;
    desc_mapped = replicate 4 none;
    client_id = 7;
  };
  hal = 0;
}

idle_device-InStep : InStep empty_queue idle_device.queue
idle_device-InStep = record {
  same_size = refl;
  mapped_length = refl;
  used_length = refl;
  avail_caught_up = refl;
  used_caught_up = refl;
  avail_small = omega arith;
  used_small = omega arith;
}

-- `exchange-Exchanged` applies to the empty queue.
exchange-Exchanged_example :
    Exchanged counting flat
      (λ p. p)
      (λ p n b c s. (s, refl))
      (λ p v n s. refl)
      (buffer 100 ∷ [])
      (buffer 200 ∷ [])
      4
      9
      empty_driver
      (0 ∷ 1 ∷ 2 ∷ 3 ∷ [])
      []
      idle_device
exchange-Exchanged_example =
    exchange-Exchanged counting flat (λ p. p) (λ p n b c s. (s, refl)) (λ p v n s. refl)
      (buffer 100 ∷ []) (buffer 200 ∷ []) 4 9 empty_driver (0 ∷ 1 ∷ 2 ∷ 3 ∷ []) [] idle_device
      empty_driver-IsValid idle_device-InStep two_requests-AllSendable (omega arith) two_fit
      (omega arith)

-- a device to which the driver offers a chain that leads back to itself
abbrev trapped_device : Device ℕ
trapped_device = record idle_device {
  queue = record idle_device.queue {
    desc = replicate 4 (record { addr = 4096; len = 16; flags = 1; next = 0 });
    avail = record empty_queue.avail { idx = 1 };
  };
}

trapped_device-ready : can_pop trapped_device.queue ≡ true
unfolding can_pop
trapped_device-ready = refl

-- `pop_avail-Cyclic` applies to it.
pop_avail-Cyclic_example : (d' : Device ℕ) × (pop_avail flat 1000 trapped_device ≡ ok none d')
pop_avail-Cyclic_example =
    pop_avail-Cyclic flat (λ p. p) (λ p n b c s. (s, refl)) (λ p v n s. refl) 0 1000 trapped_device
      trapped_device-ready refl
      (record { inside = omega arith; flags = refl; next = refl; nonempty = omega arith }) refl
