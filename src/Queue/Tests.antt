-- ===== src/Queue/Tests.antt =====
-- Runs of a queue of size 4 on a trivial `Hal`, for src/queue.rs.
mod Setup
mod Exchange
mod Owning
mod Copies
use virtio_drivers_and_devic.Prelude.{
  ℕ, ◌+◌, ◌≡◌, ◌⊎◌, inr, ◌<◌, refl, List, [], ◌∷◌, none, some, Option, ◌≤◌, false, replicate, arith,
  length,
}
use virtio_drivers_and_devic.Error.{Run, ok, err, queue_full, invalid_param}
use virtio_drivers_and_devic.Hal.{Hal, Buffer, driver_to_device, device_to_driver}
use virtio_drivers_and_devic.Queue.Descriptor.{
  Descriptor, zeroed, input_output_iter, unset_buf, next_of,
}
use virtio_drivers_and_devic.Queue.State.{VirtQueue, Driver, available_desc, can_pop, write_desc}
use virtio_drivers_and_devic.Queue.Chain.{Item}
use virtio_drivers_and_devic.Queue.Valid.{IsValid, Flight, token, chain}
use virtio_drivers_and_devic.Queue.Add.{add}
use virtio_drivers_and_devic.Queue.Add.Loop.{AllSendable}
use virtio_drivers_and_devic.Queue.Add.Correct.{Added, add-Added, add_refuses}
use virtio_drivers_and_devic.Queue.Pop.{
  pop_used, recycle_descriptors, recycle_direct, recycle_loop, recycle_one, finish_pop,
}
use virtio_drivers_and_devic.Queue.Pop.Loop.{requests}
use virtio_drivers_and_devic.Queue.Pop.Correct.{PopOutcome, pop_used-PopOutcome}

-- a `Hal` that counts the buffers shared
abbrev counting : Hal
counting = record {
  State = ℕ;
  dma_alloc = λ n direction s. ((4096, 4096), s);
  dma_dealloc = λ paddr vaddr n s. (0, s);
  share = λ b direction s. (b.ptr + 4096, s + 1);
  unshare = λ paddr b direction s. s;
  alloc = λ n s. (some 0, s);
}

abbrev free_desc : ℕ → Descriptor
free_desc next = record zeroed { next = next }

abbrev empty_queue : VirtQueue
empty_queue = record {
  size = 4;
  desc = replicate 4 zeroed;
  avail = record { flags = 0; idx = 0; ring = replicate 4 0; used_event = 0 };
  used = record {
    flags = 0;
    idx = 0;
    ring = replicate 4 (record { id = 0; len = 0 });
    avail_event = 0;
  };
  queue_idx = 0;
  num_used = 0;
  free_head = 0;
  desc_shadow = free_desc 1 ∷ free_desc 2 ∷ free_desc 3 ∷ free_desc 0 ∷ [];
  avail_idx = 0;
  last_used_idx = 0;
  event_idx = false;
  indirect = false;
  indirect_lists = replicate 4 none;
}

abbrev empty_driver : Driver ℕ
empty_driver = record { queue = empty_queue; hal = 0 }

abbrev buffer : ℕ → Buffer
buffer n = record { ptr = n; len = 16 }

empty_driver-IsValid : IsValid empty_queue (0 ∷ 1 ∷ 2 ∷ 3 ∷ []) []
empty_driver-IsValid = record {
  width = 2;
  size_pow = refl;
  size_small = omega arith;
  shadow_length = refl;
  desc_length = refl;
  avail_length = refl;
  used_length = refl;
  direct = refl;
  free_linked =
      (refl, omega arith, (refl, omega arith, (refl, omega arith, (refl, omega arith, tt))));
  owned = λ j. ground arith;
  counted = refl;
  in_use = refl;
  posted = tt;
}

two_requests-AllSendable : AllSendable (input_output_iter (buffer 100 ∷ []) (buffer 200 ∷ []))
unfolding input_output_iter
two_requests-AllSendable = (
  record { nonempty = omega arith; small = omega arith; one_way = ground arith },
  (record { nonempty = omega arith; small = omega arith; one_way = ground arith }, tt),
)

two_fit : length (buffer 100 ∷ []) + length (buffer 200 ∷ []) ≤ available_desc empty_queue
unfolding available_desc
two_fit = omega arith

-- `add-Added` applies to the empty queue.
add-Added_example :
    (d' : Driver ℕ) × (f : Flight) × (add counting (buffer 100 ∷ []) (buffer 200 ∷ []) empty_driver
      ≡ ok (token f) d')
    × Added counting empty_driver d'
        (input_output_iter (buffer 100 ∷ []) (buffer 200 ∷ []))
        (0 ∷ 1 ∷ 2 ∷ 3 ∷ [])
        []
        f
add-Added_example =
    add-Added counting (buffer 100 ∷ []) (buffer 200 ∷ []) empty_driver (0 ∷ 1 ∷ 2 ∷ 3 ∷ []) []
      empty_driver-IsValid two_requests-AllSendable (omega arith) two_fit

-- five buffers, more than there are descriptors
abbrev five : List Buffer
five = buffer 1 ∷ buffer 2 ∷ buffer 3 ∷ buffer 4 ∷ buffer 5 ∷ []

five_too_many : available_desc empty_queue < length {A = Buffer} [] + length five
unfolding available_desc
five_too_many = omega arith

-- `add_refuses` applies to them.
add_refuses_example :
    ((length {A = Buffer} [] + length five ≡ 0)
      × (add counting [] five empty_driver ≡ err invalid_param empty_driver))
    ⊎ ((0 < length {A = Buffer} [] + length five)
        × (add counting [] five empty_driver ≡ err queue_full empty_driver))
add_refuses_example = add_refuses counting [] five empty_driver (omega arith) (inr five_too_many)

-- the queue with a chain of two buffers in flight, which the device has used
abbrev used_shadow : List Descriptor
used_shadow =
    record { addr = 4196; len = 16; flags = 1; next = 1 }
    ∷ record { addr = 4296; len = 16; flags = 2; next = 2 }
    ∷ free_desc 3
    ∷ free_desc 0
    ∷ []

abbrev used_driver : Driver ℕ
used_driver = record empty_driver {
  queue = record empty_queue {
    num_used = 2;
    free_head = 2;
    desc_shadow = used_shadow;
    desc = used_shadow;
    avail = record { flags = 0; idx = 1; ring = replicate 4 0; used_event = 0 };
    avail_idx = 1;
    used = record {
      flags = 0;
      idx = 1;
      ring = replicate 4 (record { id = 0; len = 7 });
      avail_event = 0;
    };
  };
  hal = 2;
}

abbrev ok_or_panic : Run (Driver ℕ) ℕ → Option ℕ
ok_or_panic (ok n d) = some n
ok_or_panic _ = none

abbrev first_item : Item
first_item = record {
  slot = 0;
  addr = 4196;
  request = record { buffer = buffer 100; direction = driver_to_device };
}

abbrev second_item : Item
second_item = record {
  slot = 1;
  addr = 4296;
  request = record { buffer = buffer 200; direction = device_to_driver };
}

abbrev used_flight : Flight
used_flight = record { first = first_item; others = second_item ∷ [] }

used_driver-IsValid : IsValid used_driver.queue (2 ∷ 3 ∷ []) (used_flight ∷ [])
used_driver-IsValid = record {
  width = 2;
  size_pow = refl;
  size_small = omega arith;
  shadow_length = refl;
  desc_length = refl;
  avail_length = refl;
  used_length = refl;
  direct = refl;
  free_linked = (refl, omega arith, (refl, omega arith, tt));
  owned = λ j. ground arith;
  counted = refl;
  in_use = refl;
  posted = (
    (
      record { inside = omega arith; addr = refl; len = refl; flags = refl },
      refl,
      record { inside = omega arith; addr = refl; len = refl; flags = refl },
    ),
    tt,
  );
}

two_requests-same :
    input_output_iter (buffer 100 ∷ []) (buffer 200 ∷ []) ≡ requests (chain used_flight)
unfolding input_output_iter
two_requests-same = refl

-- the chain comes back, with its length
pop_two : ok_or_panic (pop_used counting 0 (buffer 100 ∷ []) (buffer 200 ∷ []) used_driver) ≡ some 7
unfolding pop_used can_pop recycle_descriptors recycle_direct recycle_loop recycle_one write_desc
    finish_pop unset_buf next_of input_output_iter
pop_two = refl

-- `pop_used-PopOutcome` applies to that queue.
pop_used-PopOutcome_example :
    PopOutcome counting used_driver
      (2 ∷ 3 ∷ [])
      []
      used_flight
      (pop_used counting 0 (buffer 100 ∷ []) (buffer 200 ∷ []) used_driver)
pop_used-PopOutcome_example =
    pop_used-PopOutcome counting (buffer 100 ∷ []) (buffer 200 ∷ []) used_driver (2 ∷ 3 ∷ []) []
      used_flight [] used_driver-IsValid two_requests-same (omega arith, (omega arith, tt))
