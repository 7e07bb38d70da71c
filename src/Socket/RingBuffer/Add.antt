-- ===== src/Socket/RingBuffer/Add.antt =====
-- `RingBuffer::add` on a well-formed buffer.
use virtio_drivers_and_devic.Prelude.{
  ℕ, ◌+◌, ◌-◌, ◌%◌, ◌≤◌, ◌<◌, ◌≡◌, refl, ap, ◌∙◌, List, ◌++◌, true, false, some, length, get_or,
  arith, ltb, leb, if◌then◌else◌, take, drop, splice, slice, min, length-take, length-drop,
  length-splice, get_or-splice, get_or-take, slice-some, copy_from_slice-some, get_or-drop,
  get_or-append, list_ext, length-tabulate, get_or-tabulate, ◌&&◌, length-append, lt→ltb,
  Bool-cases, inl, inr, false, refl,
}
use virtio_drivers_and_devic.Error.{ok}
use virtio_drivers_and_devic.Socket.ByteQueue
use virtio_drivers_and_devic.Socket.RingBuffer.{
  RingBuffer, free, add, free, add, add_bytes, get_from,
}
use virtio_drivers_and_devic.Socket.RingBuffer.Contents.{IsValid, byte_at, contents, mod_once}

module _ (r : RingBuffer) (bytes : List ℕ) where
  -- where the first copy goes, and how many bytes it takes
  abbrev first : ℕ
  first = (r.start + r.used) % length r.buffer

  abbrev before : ℕ
  before = min (length bytes) (length r.buffer - first)

  abbrev after_first : List ℕ
  after_first = splice r.buffer first (take before bytes)

  abbrev added : RingBuffer
  added = record r {
    buffer = splice after_first 0 (drop before bytes);
    used = r.used + length bytes;
  }

  module _ (v : IsValid r) (fits : r.used + length bytes ≤ length r.buffer) where
    first_lem : first ≡ (
        if ltb (r.start + r.used) (length r.buffer)
        then r.start + r.used
        else r.start + r.used - length r.buffer)
    first_lem = mod_once (r.start + r.used) (length r.buffer) (omega arith)

    first-lt : first < length r.buffer
    first-lt = ground (arith, first_lem)

    length-front : length (take before bytes) ≡ before
    length-front = omega (arith, length-take before bytes)

    length-rest : length (drop before bytes) ≡ length bytes - before
    length-rest = length-drop before bytes

    length-after_first : length after_first ≡ length r.buffer
    length-after_first =
        length-splice r.buffer first (take before bytes) (omega (arith, length-front, first-lt))

    length-added : length added.buffer ≡ length r.buffer
    length-added =
        length-splice after_first 0 (drop before bytes)
          (omega (arith, length-after_first, length-rest, first-lt))
        ∙ length-after_first

    rest_from : get_from bytes before ≡ some (drop before bytes)
    rest_from = ground arith

    front_slice : slice bytes 0 before ≡ some (take before bytes)
    front_slice =
        slice-some bytes 0 before (omega arith) (omega arith)
        ∙ ap (λ n. some (take n bytes)) (omega arith)

    add_bytes-added : add_bytes bytes r ≡ ok true added
    unfolding add_bytes
    add_bytes-added = rw (
      lt→ltb 0 (length r.buffer) (omega arith),
      front_slice,
      copy_from_slice-some r.buffer first (first + before) (take before bytes)
          (omega (arith, length-front)) (omega (arith, first-lt)),
      rest_from,
      copy_from_slice-some after_first 0 (length (drop before bytes)) (drop before bytes)
          (omega arith) (omega (arith, length-after_first, length-rest, first-lt)),
    )

    added-IsValid : IsValid added
    added-IsValid = omega (arith, length-added)

    -- The byte at each place of the buffer afterwards.
    get_or-added :
        (p : ℕ)
        → p < length r.buffer
        → get_or added.buffer p 0 ≡ (
            if ltb p (length bytes - before)
            then get_or bytes (before + p) 0
            else if leb first p && ltb p (first + before)
            then get_or bytes (p - first) 0
            else get_or r.buffer p 0)
    get_or-added p h = ground (
      arith,
      get_or-splice after_first 0 (drop before bytes) p 0,
      get_or-splice r.buffer first (take before bytes) p 0,
      get_or-drop before bytes p 0,
      get_or-take before bytes (p - first) 0,
      length-after_first,
      length-rest,
      length-front,
      first-lt,
    )

    byte_at-added :
        (i : ℕ)
        → i < r.used + length bytes
        → byte_at added i ≡ (if ltb i r.used then byte_at r i else get_or bytes (i - r.used) 0)
    byte_at-added i h =
        ap (λ n. get_or added.buffer ((r.start + i) % n) 0) length-added
        ∙ get_or-added ((r.start + i) % length r.buffer) (omega arith)
        ∙ ground (arith, mod_once (r.start + i) (length r.buffer), first_lem, length-rest)

    contents-added : contents added ≡ contents r ++ bytes
    contents-added =
        list_ext (contents added) (contents r ++ bytes) 0
          (omega (
            arith,
            length-tabulate added.used (byte_at added),
            length-append (contents r) bytes,
            length-tabulate r.used (byte_at r),
          ))
          λ i h. ground (
            arith,
            length-tabulate added.used (byte_at added),
            length-tabulate r.used (byte_at r),
            get_or-tabulate added.used (byte_at added) i 0,
            get_or-tabulate r.used (byte_at r) i 0,
            get_or-append (contents r) bytes i 0,
            byte_at-added i,
          )

free_lem : (r : RingBuffer) → IsValid r → free r ≡ ok (length r.buffer - r.used) r
unfolding free
free_lem r v = ground arith

-- On a well-formed buffer `add` returns, and does what the queue does: it appends the bytes if
-- they all fit, and otherwise answers false and keeps its bytes. The buffer stays well formed and
-- keeps its capacity.
pub add_refines :
    (r : RingBuffer) (bytes : List ℕ)
    → IsValid r
    → let (done, q) = ByteQueue.add (length r.buffer) bytes (contents r) in
      (r' : RingBuffer) × (add bytes r ≡ ok done r')
      × (contents r' ≡ q)
      × IsValid r'
      × (length r'.buffer ≡ length r.buffer)
unfolding add ByteQueue.add
add_refines r bytes v =
    elim (Bool-cases (leb (length (contents r) + length bytes) (length r.buffer))) [
      | inl fits ↦
          rw (fits, free_lem r v, not_full fits, add_bytes-added r bytes v (le fits))
            (
              added r bytes,
              refl,
              contents-added r bytes v (le fits),
              added-IsValid r bytes v (le fits),
              length-added r bytes v (le fits),
            )
      | inr full ↦ rw (full, free_lem r v, is_full full) (r, refl, refl, v, refl)
    ]
  where
    le :
        leb (length (contents r) + length bytes) (length r.buffer) ≡ true
        → r.used + length bytes ≤ length r.buffer
    le h = ground (arith, length-tabulate r.used (byte_at r))

    not_full :
        leb (length (contents r) + length bytes) (length r.buffer) ≡ true
        → ltb (length r.buffer - r.used) (length bytes) ≡ false
    not_full h = ground (arith, le h)

    is_full :
        leb (length (contents r) + length bytes) (length r.buffer) ≡ false
        → ltb (length r.buffer - r.used) (length bytes) ≡ true
    is_full h = ground (arith, length-tabulate r.used (byte_at r))
