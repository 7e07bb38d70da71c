-- ===== src/Socket/RingBuffer.antt =====
-- `RingBuffer` of src/device/socket/connectionmanager.rs: the bytes received on a connection that
-- the client has not read yet.
pub mod Contents
pub mod Add
pub mod Drain
pub mod Session
use virtio_drivers_and_devic.Prelude.{
  ℕ, zero, suc, ◌+◌, ◌-◌, ◌%◌, min, List, [], ◌∷◌, Bool, true, false, not, Option, none, some, leb,
  ltb, ◌==◌, if◌then◌else◌, length, take, drop, slice, copy_from_slice, replicate,
}
use virtio_drivers_and_devic.Error.{
  Cmd, Run, ok, err, panic, ◌>>=◌, ◌>>◌, get, put, pure, assert, unwrap,
}

pub record RingBuffer : Type 0 where
  pub buffer : List ℕ
  pub used : ℕ
  pub start : ℕ

-- a buffer that holds nothing yet
abbrev pub empty_buffer : ℕ → RingBuffer
empty_buffer capacity = record { buffer = replicate capacity 0; used = 0; start = 0 }

-- `RingBuffer::new`, by whether there is memory for it; `none` is the `unwrap` of a failed
-- allocation
unfoldable pub new : Bool → ℕ → Option RingBuffer
new has_memory capacity = if has_memory then some (empty_buffer capacity) else none

-- `RingBuffer::is_empty`
unfoldable pub is_empty : RingBuffer → Bool
is_empty r = r.used == 0

-- `RingBuffer::free`: the subtraction overflows if `used` exceeds the length.
unfoldable pub free : Cmd RingBuffer ℕ
free r = if leb r.used (length r.buffer) then ok (length r.buffer - r.used) r else panic

-- `a % b`, which panics at `b == 0`
abbrev pub rem : ℕ → ℕ → Cmd RingBuffer ℕ
rem a b = do assert (ltb 0 b); pure (a % b)

-- `bytes.get(n..)`
abbrev pub get_from : List ℕ → ℕ → Option (List ℕ)
get_from bytes n = if leb n (length bytes) then some (drop n bytes) else none

-- the second copy of `add`, after the end of the buffer
abbrev pub copy_wrapped : List ℕ → Option (List ℕ) → Option (List ℕ)
copy_wrapped buffer none = some buffer
copy_wrapped buffer (some rest) = copy_from_slice buffer 0 (length rest) rest

-- the part of `add` behind the test for space
unfoldable pub add_bytes : List ℕ → Cmd RingBuffer Bool
add_bytes bytes = do
  r ← get
  first_available ← rem (r.start + r.used) (length r.buffer)
  let before = min (length bytes) (length r.buffer - first_available)
  src ← unwrap (slice bytes 0 before)
  copied ← unwrap (copy_from_slice r.buffer first_available (first_available + before) src)
  wrapped ← unwrap (copy_wrapped copied (get_from bytes before))
  put (record r { buffer = wrapped; used = r.used + length bytes })
  pure true

-- `RingBuffer::add`
unfoldable pub add : List ℕ → Cmd RingBuffer Bool
unfolding free add_bytes
add bytes = do room ← free; if ltb room (length bytes) then pure false else add_bytes bytes

-- `RingBuffer::drain`: the number of bytes read, and `out` with them at its front
unfoldable pub drain : List ℕ → Cmd RingBuffer (ℕ × List ℕ)
drain out = do
  r ← get
  let bytes_read = min r.used (length out)
  assert (leb r.start (length r.buffer))
  let before = min bytes_read (length r.buffer - r.start)
  let after = bytes_read - before
  head ← unwrap (slice r.buffer r.start (r.start + before))
  out' ← unwrap (copy_from_slice out 0 before head)
  tail ← unwrap (slice r.buffer 0 after)
  out'' ← unwrap (copy_from_slice out' before bytes_read tail)
  start' ← rem (r.start + bytes_read) (length r.buffer)
  put (record r { used = r.used - bytes_read; start = start' })
  pure (bytes_read, out'')
