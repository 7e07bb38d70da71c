-- ===== src/Queue/Notify.antt =====
-- When `should_notify` of src/queue.rs lets the driver notify the device, against the rule of the
-- VirtIO specification.
use virtio_drivers_and_devic.Prelude.{
  ℕ, ◌+◌, ◌-◌, ◌%◌, ◌^◌, ◌≤◌, ◌<◌, ◌≡◌, Bool, true, false, ltb, arith,
}
use virtio_drivers_and_devic.Queue.State.{VirtQueue}
use virtio_drivers_and_devic.Queue.Pop.{should_notify}

-- `vring_need_event` of the specification: the event index is among the entries from `old` on that
-- the driver has offered before `new`, all modulo `2 ^ 16`.
abbrev pub need_event : (event new old : ℕ) → Bool
need_event event new old = ltb ((new + 2 ^ 16 - event - 1) % 2 ^ 16) ((new + 2 ^ 16 - old) % 2 ^ 16)

-- With event indices, and as long as the driver's index has not wrapped around since `old`, a
-- device that needs a notification gets it.
pub should_notify-need_event :
    (q : VirtQueue) (old : ℕ)
    → q.event_idx ≡ true
    → q.avail_idx < 2 ^ 16
    → q.used.avail_event < 2 ^ 16
    → old ≤ q.avail_idx
    → need_event q.used.avail_event q.avail_idx old ≡ true
    → should_notify q ≡ true
unfolding should_notify
should_notify-need_event q old e h k l need = ground arith

-- Once the index has wrapped around, the device that asked for an entry before the wrap gets none
-- although the rule demands it.
pub should_notify_wrapped :
    (q : VirtQueue) (old : ℕ)
    → q.event_idx ≡ true
    → q.avail_idx < old
    → old ≤ q.used.avail_event
    → q.used.avail_event + 1 < 2 ^ 16
    → (need_event q.used.avail_event q.avail_idx old ≡ true) × (should_notify q ≡ false)
unfolding should_notify
should_notify_wrapped q old e h k l = ground arith
