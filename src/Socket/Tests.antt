-- ===== src/Socket/Tests.antt =====
-- Runs of a ring buffer of capacity 3, for src/device/socket/connectionmanager.rs.
mod Packets
mod Managers
use virtio_drivers_and_devic.Prelude.{some, ◌≡◌, List, [], ◌∷◌, length, arith, true, false, refl}
use virtio_drivers_and_devic.Error.{ok, panic}
use virtio_drivers_and_devic.Socket.ByteQueue
use virtio_drivers_and_devic.Socket.ByteQueue.{Op, add_op, drain_op, Reply, added, drained}
use virtio_drivers_and_devic.Socket.RingBuffer.{RingBuffer, new, add, drain}
use virtio_drivers_and_devic.Socket.RingBuffer.Contents.{IsValid, contents}
use virtio_drivers_and_devic.Socket.RingBuffer.Add.{add_refines}
use virtio_drivers_and_devic.Socket.RingBuffer.Drain.{drain_refines, drain-new_zero}
use virtio_drivers_and_devic.Socket.RingBuffer.Session.{run, run_refines}

-- calls that wrap around, and one that does not fit
abbrev calls : List Op
calls =
    add_op (1 ∷ 2 ∷ 3 ∷ [])
    ∷ drain_op (0 ∷ 0 ∷ [])
    ∷ add_op (4 ∷ 5 ∷ [])
    ∷ add_op (6 ∷ [])
    ∷ drain_op (9 ∷ 9 ∷ 9 ∷ 9 ∷ [])
    ∷ []

-- the answers of the queue to them
calls-answers :
    ByteQueue.run 3 calls []
    ≡ added true
      ∷ drained 2 (1 ∷ 2 ∷ [])
      ∷ added true
      ∷ added false
      ∷ drained 3 (3 ∷ 4 ∷ 5 ∷ 9 ∷ [])
      ∷ []
unfolding ByteQueue.run ByteQueue.add ByteQueue.drain
calls-answers = refl

-- `run_refines` applies to them.
run_refines_example :
    (r₀ r : RingBuffer) × (new true 3 ≡ some r₀)
    × (run calls r₀ ≡ ok (ByteQueue.run 3 calls []) r)
    × IsValid r
run_refines_example = run_refines 3 calls (omega arith)

-- `drain-new_zero` applies to a read of one byte.
drain-new_zero_example :
    (r : RingBuffer) × (new true 0 ≡ some r) × (drain (0 ∷ []) r ≡ panic) × (add [] r ≡ panic)
drain-new_zero_example = drain-new_zero (0 ∷ [])
