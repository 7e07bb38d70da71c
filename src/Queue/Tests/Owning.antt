-- ===== src/Queue/Tests/Owning.antt =====
-- Owning queues of src/queue/owning.rs with buffers of 16 bytes.
use virtio_drivers_and_devic.Prelude.{ℕ, ◌+◌, ◌≡◌, refl, List, [], ◌∷◌, some, Option, false, arith}
use virtio_drivers_and_devic.Error.{ok, Run}
use virtio_drivers_and_devic.Hal.{Buffer, device_to_driver}
use virtio_drivers_and_devic.Transport.{Transport}
use virtio_drivers_and_devic.Queue.State.{VirtQueue, Driver}
use virtio_drivers_and_devic.Queue.Descriptor.{Descriptor}
use virtio_drivers_and_devic.Queue.Valid.{Flight}
use virtio_drivers_and_devic.Queue.Owning.{OwningQueue, Owning, new, poll}
use virtio_drivers_and_devic.Queue.Owning.Correct.{
  Stocked, new-Stocked, PollOutcome, poll-PollOutcome,
}
use virtio_drivers_and_devic.Queue.Tests.{counting, empty_queue, empty_driver, empty_driver-IsValid}

-- a transport that counts the notifications
abbrev notified : Transport
notified = record {
  State = ℕ;
  max_queue_size = λ idx t. (8, t);
  notify = λ idx t. t + 1;
  requires_legacy_layout = λ t. false;
  queue_set = λ idx size descriptors driver_area device_area t. t;
  queue_used = λ idx t. (false, t);
}

-- `new-Stocked` applies to the empty queue.
new-Stocked_example :
    (w : Owning counting notified 16) × (d' : Driver ℕ) × (new counting notified 16 0 empty_driver
      ≡ ok w d')
    × Stocked 16 w
new-Stocked_example =
    new-Stocked counting notified 16 (omega arith) (omega arith) empty_driver 0 empty_driver-IsValid
      (λ n s. (0, refl))

-- a queue of one buffer at address 100, to which the device has written 7 bytes
abbrev one_shadow : List Descriptor
one_shadow = record { addr = 4196; len = 16; flags = 2; next = 0 } ∷ []

abbrev one_queue : VirtQueue
one_queue = record empty_queue {
  size = 1;
  desc = one_shadow;
  desc_shadow = one_shadow;
  num_used = 1;
  avail = record { flags = 0; idx = 1; ring = 0 ∷ []; used_event = 0 };
  avail_idx = 1;
  used = record { flags = 0; idx = 1; ring = record { id = 0; len = 7 } ∷ []; avail_event = 0 };
}

abbrev one_owning : OwningQueue ℕ ℕ
one_owning = record {
  driver = record { queue = one_queue; hal = 1 };
  transport = 0;
  buffers = 100 ∷ [];
}

abbrev one_flight : Flight
one_flight = record {
  first = record {
    slot = 0;
    addr = 4196;
    request = record { buffer = record { ptr = 100; len = 16 }; direction = device_to_driver };
  };
  others = [];
}

one_owning-Stocked : Stocked 16 one_owning
one_owning-Stocked = record {
  flights = one_flight ∷ [];
  valid = record {
    width = 0;
    size_pow = refl;
    size_small = omega arith;
    shadow_length = refl;
    desc_length = refl;
    avail_length = refl;
    used_length = refl;
    direct = refl;
    free_linked = tt;
    owned = λ j. ground arith;
    counted = refl;
    in_use = refl;
    posted = (record { inside = omega arith; addr = refl; len = refl; flags = refl }, tt);
  };
  owned = (record { alone = refl; inside = omega arith; request = refl }, tt);
  enough = refl;
}

-- a handler that counts the bytes
abbrev count_bytes : Buffer → ℕ → Run ℕ (Option ℕ)
count_bytes b n = ok (some b.ptr) (n + b.len)

-- `poll-PollOutcome` applies to that queue.
poll-PollOutcome_example :
    PollOutcome counting notified 16
      (omega arith)
      (omega arith)
      count_bytes
      one_owning
      0
      (poll counting notified 16 count_bytes (one_owning, 0))
poll-PollOutcome_example =
    poll-PollOutcome counting notified 16 (omega arith) (omega arith) count_bytes one_owning 0
      one_owning-Stocked
