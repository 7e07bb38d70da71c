-- ===== src/Socket/RingBuffer/Session.antt =====
-- A ring buffer from `RingBuffer::new` on, through any sequence of calls.
use virtio_drivers_and_devic.Prelude.{
  ℕ, ◌<◌, ◌≡◌, refl, ap, ◌∙◌, true, some, List, [], ◌∷◌, length, arith, length-replicate,
}
use virtio_drivers_and_devic.Error.{Cmd, ok, ◌>>=◌, pure}
use virtio_drivers_and_devic.Socket.ByteQueue
use virtio_drivers_and_devic.Socket.ByteQueue.{Op, add_op, drain_op, Reply, added, drained}
use virtio_drivers_and_devic.Socket.RingBuffer.{RingBuffer, empty_buffer, new, add, drain}
use virtio_drivers_and_devic.Socket.RingBuffer.Contents.{IsValid, contents}
use virtio_drivers_and_devic.Socket.RingBuffer.Add.{add_refines}
use virtio_drivers_and_devic.Socket.RingBuffer.Drain.{drain_refines}

step : Op → Cmd RingBuffer Reply
step (add_op bytes) = do done ← add bytes; pure (added done)
step (drain_op out) = do (n, out') ← drain out; pure (drained n out')

pub run : List Op → Cmd RingBuffer (List Reply)
unfolding step
run [] = pure []
run (op ∷ ops) = do reply ← step op; rest ← run ops; pure (reply ∷ rest)

empty_buffer-IsValid : (capacity : ℕ) → 0 < capacity → IsValid (empty_buffer capacity)
empty_buffer-IsValid capacity h = omega (arith, length-replicate {A = ℕ} capacity 0)

run-IsValid :
    (ops : List Op) (r : RingBuffer)
    → IsValid r
    → (r' : RingBuffer) × (run ops r ≡ ok (ByteQueue.run (length r.buffer) ops (contents r)) r')
      × IsValid r'
unfolding run ByteQueue.run
run-IsValid [] r v = (r, refl, v)
run-IsValid (add_op bytes ∷ ops) r v =
    let (r₁, e, q, v₁, n) = add_refines r bytes v in
    let (r₂, e₂, v₂) = run-IsValid ops r₁ v₁ in (r₂, rw (e, e₂, q, n), v₂)
run-IsValid (drain_op out ∷ ops) r v =
    let (r₁, e, q, v₁, b) = drain_refines r out v in
    let (r₂, e₂, v₂) = run-IsValid ops r₁ v₁ in (r₂, rw (e, e₂, q, b), v₂)

-- A buffer of nonzero capacity, for which there is memory, never panics or fails, and no sequence
-- of calls tells it from the bounded queue, which starts empty.
pub run_refines :
    (capacity : ℕ) (ops : List Op)
    → 0 < capacity
    → (r₀ r : RingBuffer) × (new true capacity ≡ some r₀)
      × (run ops r₀ ≡ ok (ByteQueue.run capacity ops []) r)
      × IsValid r
unfolding new
run_refines capacity ops h =
    let (r, e, v) = run-IsValid ops (empty_buffer capacity) (empty_buffer-IsValid capacity h) in
    (
      empty_buffer capacity,
      r,
      refl,
      e ∙ ap (λ n. ok (ByteQueue.run n ops []) r) (length-replicate {A = ℕ} capacity 0),
      v,
    )
