-- ===== src/Socket/Packet.antt =====
-- The bytes of a packet, and `read_header_and_body` of src/device/socket/vsock.rs.
pub mod RoundTrip
use virtio_drivers_and_devic.Prelude.{
  ℕ, zero, suc, ◌+◌, ◌*◌, ◌/◌, ◌%◌, ◌^◌, ltb, leb, if◌then◌else◌, Option, none, some, List, [], ◌∷◌,
  ◌++◌, length, take, drop, slice,
}
use virtio_drivers_and_devic.Error.{buffer_too_short, invalid_number}
use virtio_drivers_and_devic.Socket.Protocol.{VirtioVsockHdr, Parsed, accepted, rejected}

-- the bytes of a little-endian number of the given width, and its value
abbrev pub to_bytes : ℕ → ℕ → List ℕ
to_bytes zero n = []
to_bytes (suc width) n = (n % 256) ∷ to_bytes width (n / 256)

abbrev pub from_bytes : List ℕ → ℕ
from_bytes [] = 0
from_bytes (b ∷ bs) = b + 256 * from_bytes bs

-- `size_of::<VirtioVsockHdr>()`
abbrev pub size_of_header : ℕ
size_of_header = 44

-- `as_bytes` of a packed `VirtioVsockHdr`
unfoldable pub as_bytes : VirtioVsockHdr → List ℕ
as_bytes h =
    to_bytes 8 h.src_cid
    ++ (to_bytes 8 h.dst_cid
        ++ (to_bytes 4 h.src_port
            ++ (to_bytes 4 h.dst_port
                ++ (to_bytes 4 h.len
                    ++ (to_bytes 2 h.socket_type
                        ++ (to_bytes 2 h.op
                            ++ (to_bytes 4 h.flags
                                ++ (to_bytes 4 h.buf_alloc ++ to_bytes 4 h.fwd_cnt))))))))

-- the field of the given width behind the given number of bytes
abbrev pub field_at : ℕ → ℕ → List ℕ → ℕ
field_at from width bytes = from_bytes (take width (drop from bytes))

-- `read_from_prefix` of `VirtioVsockHdr`
unfoldable pub read_from_prefix : List ℕ → Parsed VirtioVsockHdr
read_from_prefix bytes =
    if ltb (length bytes) size_of_header
    then rejected buffer_too_short
    else accepted (record {
      src_cid = field_at 0 8 bytes;
      dst_cid = field_at 8 8 bytes;
      src_port = field_at 16 4 bytes;
      dst_port = field_at 20 4 bytes;
      len = field_at 24 4 bytes;
      socket_type = field_at 28 2 bytes;
      op = field_at 30 2 bytes;
      flags = field_at 32 4 bytes;
      buf_alloc = field_at 36 4 bytes;
      fwd_cnt = field_at 40 4 bytes;
    })

abbrev pub with_body : VirtioVsockHdr → Option (List ℕ) → Parsed (VirtioVsockHdr × List ℕ)
with_body h none = rejected buffer_too_short
with_body h (some body) = accepted (h, body)

-- the checks on the length of the body; `checked_add` is on a 64-bit `usize`
abbrev pub read_body : List ℕ → Parsed VirtioVsockHdr → Parsed (VirtioVsockHdr × List ℕ)
read_body bytes (rejected e) = rejected e
read_body bytes (accepted h) =
    if leb (2 ^ 64) (size_of_header + h.len)
    then rejected invalid_number
    else with_body h (slice bytes size_of_header (size_of_header + h.len))

-- `read_header_and_body`
unfoldable pub read_header_and_body : List ℕ → Parsed (VirtioVsockHdr × List ℕ)
unfolding read_from_prefix
read_header_and_body bytes = read_body bytes (read_from_prefix bytes)
