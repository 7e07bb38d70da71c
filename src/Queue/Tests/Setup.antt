-- ===== src/Queue/Tests/Setup.antt =====
-- Layouts, new queues and notifications of src/queue.rs, for queues of size 4 and 8.
use virtio_drivers_and_devic.Prelude.{
  ℕ, ◌+◌, ◌≡◌, refl, ap, ltb, if◌then◌else◌, Bool-cases, inl, inr, true, false, arith,
}
use virtio_drivers_and_devic.Hal.{Hal}
use virtio_drivers_and_devic.Transport.{Transport}
use virtio_drivers_and_devic.Queue.State.{VirtQueue}
use virtio_drivers_and_devic.Queue.Layout.{allocate_legacy, allocate_flexible}
use virtio_drivers_and_devic.Queue.Layout.Regions.{
  Placed, Allocates, allocate_legacy-Placed, allocate_flexible-Placed,
}
use virtio_drivers_and_devic.Queue.New.{new}
use virtio_drivers_and_devic.Queue.New.Correct.{Addressable, NewOutcome, new-NewOutcome}
use virtio_drivers_and_devic.Queue.Notify.{
  need_event, should_notify-need_event, should_notify_wrapped,
}
use virtio_drivers_and_devic.Queue.Pop.{should_notify}
use virtio_drivers_and_devic.Queue.Tests.{counting, empty_queue}

-- a transport that counts the queues that are set
abbrev counting_queues : Transport
counting_queues = record {
  State = ℕ;
  max_queue_size = λ idx t. (8, t);
  notify = λ idx t. t;
  requires_legacy_layout = λ t. false;
  queue_set = λ idx size descriptors driver_area device_area t. t + 1;
  queue_used = λ idx t. (false, t);
}

-- `allocate_legacy-Placed` applies to 8 descriptors.
allocate_legacy-Placed_example : Allocates counting (Placed 8) (allocate_legacy counting 8 0)
allocate_legacy-Placed_example = allocate_legacy-Placed counting 8 0 refl

-- `allocate_flexible-Placed` applies to 8 descriptors.
allocate_flexible-Placed_example : Allocates counting (Placed 8) (allocate_flexible counting 8 0)
allocate_flexible-Placed_example =
    allocate_flexible-Placed counting 8 0 refl (λ paddr vaddr k t. refl)

-- a `Hal` that has 16 pages to give
abbrev sixteen_pages : Hal
sixteen_pages = record counting {
  dma_alloc = λ n direction s. (if ltb 16 n then (0, 4096) else (4096, 4096), s);
}

sixteen_pages-Addressable : Addressable sixteen_pages
sixteen_pages-Addressable = record {
  inside = λ n direction s paddr vaddr e there. elim (Bool-cases (ltb 16 n)) [
    | inl more ↦ absurd (ground (arith, rw more at e))
    | inr few ↦
        (ground (arith, ap (λ p. p.0) (rw few at e)), ground (arith, ap (λ p. p.1) (rw few at e)))
  ];
}

-- `new-NewOutcome` applies to them.
new-NewOutcome_example :
    NewOutcome sixteen_pages counting_queues 8 0 true 0 0
      (new sixteen_pages counting_queues 8 0 false true (0, 0))
new-NewOutcome_example =
    new-NewOutcome sixteen_pages counting_queues 8 0 true 0 0 refl (λ paddr vaddr k u. refl)
      sixteen_pages-Addressable

-- a queue whose driver has offered the entries up to `idx`, for a device that wants to hear of one
abbrev offering : ℕ → ℕ → VirtQueue
offering idx event = record empty_queue {
  event_idx = true;
  avail_idx = idx;
  used = record empty_queue.used { avail_event = event };
}

-- `should_notify-need_event` applies when entry 4 has been offered.
should_notify-need_event_example : should_notify (offering 5 4) ≡ true
should_notify-need_event_example =
    should_notify-need_event (offering 5 4) 3 refl (omega arith) (omega arith) (omega arith) refl

-- `should_notify_wrapped` applies when the index has gone from 65532 to 2.
should_notify_wrapped_example :
    (need_event 65533 2 65532 ≡ true) × (should_notify (offering 2 65533) ≡ false)
should_notify_wrapped_example =
    should_notify_wrapped (offering 2 65533) 65532 refl (omega arith) (omega arith) (omega arith)
