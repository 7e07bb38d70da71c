-- ===== src/Socket/RingBuffer/Drain.antt =====
-- `RingBuffer::drain` on a well-formed buffer.
use virtio_drivers_and_devic.Prelude.{
  ℕ, ◌+◌, ◌-◌, ◌%◌, ◌<◌, ◌≡◌, ap, ◌∙◌, List, ◌++◌, true, some, length, get_or, arith, ltb, leb,
  if◌then◌else◌, take, drop, splice, slice, min, length-take, length-drop, length-splice,
  get_or-splice, get_or-take, slice-some, copy_from_slice-some, get_or-drop, get_or-append,
  list_ext, length-tabulate, get_or-tabulate, length-append, lt→ltb, refl, sym, [],
}
use virtio_drivers_and_devic.Error.{ok, panic}
use native.Mathlib.Nat.{mod-add-mod, zero-min}
use virtio_drivers_and_devic.Socket.ByteQueue
use virtio_drivers_and_devic.Socket.RingBuffer.{
  RingBuffer, empty_buffer, new, add, add_bytes, free, drain,
}
use virtio_drivers_and_devic.Socket.RingBuffer.Contents.{IsValid, byte_at, contents, mod_once}

module _ (r : RingBuffer) (out : List ℕ) where
  abbrev bytes_read : ℕ
  bytes_read = min r.used (length out)

  abbrev before : ℕ
  before = min bytes_read (length r.buffer - r.start)

  abbrev head : List ℕ
  head = take before (drop r.start r.buffer)

  abbrev tail : List ℕ
  tail = take (bytes_read - before) r.buffer

  abbrev written : List ℕ
  written = splice (splice out 0 head) before tail

  abbrev drained : RingBuffer
  drained = record r {
    used = r.used - bytes_read;
    start = (r.start + bytes_read) % length r.buffer;
  }

  module _ (v : IsValid r) where
    length-head : length head ≡ before
    length-head =
        omega (arith, length-take before (drop r.start r.buffer), length-drop r.start r.buffer)

    length-tail : length tail ≡ bytes_read - before
    length-tail = omega (arith, length-take (bytes_read - before) r.buffer)

    length-out' : length (splice out 0 head) ≡ length out
    length-out' = length-splice out 0 head (omega (arith, length-head))

    head-slice : slice r.buffer r.start (r.start + before) ≡ some head
    head-slice =
        slice-some r.buffer r.start (r.start + before) (omega arith) (omega arith)
        ∙ ap (λ n. some (take n (drop r.start r.buffer))) (omega arith)

    tail-slice : slice r.buffer 0 (bytes_read - before) ≡ some tail
    tail-slice =
        slice-some r.buffer 0 (bytes_read - before) (omega arith) (omega arith)
        ∙ ap (λ n. some (take n r.buffer)) (omega arith)

    drain-drained : drain out r ≡ ok (bytes_read, written) drained
    unfolding drain
    drain-drained = rw (
      assert_start,
      head-slice,
      copy_from_slice-some out 0 before head (omega (arith, length-head)) (omega arith),
      tail-slice,
      copy_from_slice-some (splice out 0 head) before bytes_read tail (omega (arith, length-tail))
          (omega (arith, length-out')),
      lt→ltb 0 (length r.buffer) (omega arith),
    )
      where
        assert_start : leb r.start (length r.buffer) ≡ true
        assert_start = ground arith

    drained-IsValid : IsValid drained
    drained-IsValid = omega arith

    length-contents : length (contents r) ≡ r.used
    length-contents = length-tabulate r.used (byte_at r)

    length-written : length written ≡ length out
    length-written =
        length-splice (splice out 0 head) before tail (omega (arith, length-out', length-tail))
        ∙ length-out'

    get_or-written :
        (i : ℕ)
        → i < length out
        → get_or written i 0 ≡ (if ltb i bytes_read then byte_at r i else get_or out i 0)
    get_or-written i h = ground (
      arith,
      get_or-splice (splice out 0 head) before tail i 0,
      get_or-splice out 0 head i 0,
      get_or-take before (drop r.start r.buffer) i 0,
      get_or-drop r.start r.buffer i 0,
      get_or-take (bytes_read - before) r.buffer (i - before) 0,
      mod_once (r.start + i) (length r.buffer),
      length-out',
      length-head,
      length-tail,
    )

    written_lem : written ≡ take bytes_read (contents r) ++ drop bytes_read out
    written_lem =
        list_ext written (take bytes_read (contents r) ++ drop bytes_read out) 0
          (omega (
            arith,
            length-written,
            length-append (take bytes_read (contents r)) (drop bytes_read out),
            length-take bytes_read (contents r),
            length-drop bytes_read out,
            length-contents,
          ))
          λ i h.
            get_or-written i (omega (arith, length-written))
            ∙ ground (
              arith,
              get_or-append (take bytes_read (contents r)) (drop bytes_read out) i 0,
              get_or-take bytes_read (contents r) i 0,
              get_or-drop bytes_read out (i - bytes_read) 0,
              length-take bytes_read (contents r),
              get_or-tabulate r.used (byte_at r) i 0,
              length-contents,
            )

    contents-drained : contents drained ≡ drop bytes_read (contents r)
    contents-drained =
        list_ext (contents drained) (drop bytes_read (contents r)) 0
          (omega (
            arith,
            length-tabulate drained.used (byte_at drained),
            length-drop bytes_read (contents r),
            length-contents,
          ))
          λ i h.
            let inside : i < r.used - bytes_read =
              omega (arith, length-tabulate drained.used (byte_at drained)) in
            get_or-tabulate drained.used (byte_at drained) i 0 inside
            ∙ ap (λ p. get_or r.buffer p 0)
                (mod-add-mod (r.start + bytes_read) (length r.buffer) i
                  ∙ ap (λ (p : ℕ). p % length r.buffer) (omega arith))
            ∙ sym (
                get_or-drop bytes_read (contents r) i 0
                ∙ get_or-tabulate r.used (byte_at r) (bytes_read + i) 0 (omega arith))

-- On a well-formed buffer `drain` returns, and does what the queue does: it moves as many bytes as
-- there are and as fit to the front of `out`, in order, and leaves the rest of `out` alone. The
-- buffer stays well formed and keeps its storage.
pub drain_refines :
    (r : RingBuffer) (out : List ℕ)
    → IsValid r
    → let (reply, q) = ByteQueue.drain out (contents r) in
      (r' : RingBuffer) × (drain out r ≡ ok reply r')
      × (contents r' ≡ q)
      × IsValid r'
      × (r'.buffer ≡ r.buffer)
unfolding ByteQueue.drain
drain_refines r out v =
    rw (length-contents r out v, drain-drained r out v, written_lem r out v)
      (drained r out, refl, contents-drained r out v, drained-IsValid r out v, refl)

-- A buffer of capacity 0, for which the allocator always has memory, panics on every read, and on
-- the write of an empty packet: both take a remainder by the length of the buffer.
pub drain-new_zero :
    (out : List ℕ)
    → (r : RingBuffer) × (new true 0 ≡ some r) × (drain out r ≡ panic) × (add [] r ≡ panic)
unfolding drain add new free add_bytes
drain-new_zero out = (empty_buffer 0, refl, rw zero-min (rw room (rw room)), refl)
  where
    room : leb 0 (length out) ≡ true
    room = ground arith
