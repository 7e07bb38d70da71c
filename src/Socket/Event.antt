-- ===== src/Socket/Event.antt =====
-- `ConnectionInfo` and `VsockEvent` of src/device/socket/vsock.rs.
pub mod Correct
use virtio_drivers_and_devic.Prelude.{ℕ, ◌+◌, ◌-◌, ◌%◌, ◌^◌, ◌==◌, ◌&&◌, Bool, false, if◌then◌else◌}
use virtio_drivers_and_devic.Error.{SocketError, invalid_operation}
use virtio_drivers_and_devic.Socket.Protocol.{
  VsockAddr, same_addr, VirtioVsockHdr, default_header, VirtioVsockOp, invalid, request, response,
  rst, shutdown, rw_op, credit_update, credit_request, Parsed, accepted, rejected, try_from_op,
  source, destination, check_data_is_empty,
}

-- `ConnectionInfo`
pub record ConnectionInfo : Type 0 where
  pub dst : VsockAddr
  pub src_port : ℕ
  pub peer_buf_alloc : ℕ
  pub peer_fwd_cnt : ℕ
  pub tx_cnt : ℕ
  pub buf_alloc : ℕ
  pub fwd_cnt : ℕ
  pub has_pending_credit_request : Bool

-- `VsockBufferStatus`
pub record VsockBufferStatus : Type 0 where
  pub buffer_allocation : ℕ
  pub forward_count : ℕ

-- `DisconnectReason`
pub data DisconnectReason : Type 0 where
  reset shutdown_reason : DisconnectReason

-- `VsockEventType`
pub data VsockEventType : Type 0 where
  connection_request connected : VsockEventType
  disconnected : DisconnectReason → VsockEventType
  received : ℕ → VsockEventType
  credit_request_event credit_update_event : VsockEventType

-- `VsockEvent`, without the connection that the connection manager adds to a request
pub record VsockEvent : Type 0 where
  pub source : VsockAddr
  pub destination : VsockAddr
  pub buffer_status : VsockBufferStatus
  pub event_type : VsockEventType

-- `ConnectionInfo::new`
unfoldable pub new : VsockAddr → ℕ → ConnectionInfo
new destination src_port = record {
  dst = destination;
  src_port = src_port;
  peer_buf_alloc = 0;
  peer_fwd_cnt = 0;
  tx_cnt = 0;
  buf_alloc = 0;
  fwd_cnt = 0;
  has_pending_credit_request = false;
}

-- whether an event is a credit update
abbrev pub keeps_request : VsockEventType → Bool → Bool
keeps_request credit_update_event pending = false
keeps_request _ pending = pending

-- `update_for_event`
unfoldable pub update_for_event : VsockEvent → ConnectionInfo → ConnectionInfo
update_for_event event info = record info {
  peer_buf_alloc = event.buffer_status.buffer_allocation;
  peer_fwd_cnt = event.buffer_status.forward_count;
  has_pending_credit_request = keeps_request event.event_type info.has_pending_credit_request;
}

-- `done_forwarding`
unfoldable pub done_forwarding : ℕ → ConnectionInfo → ConnectionInfo
done_forwarding length info = record info { fwd_cnt = (info.fwd_cnt + length % 2 ^ 32) % 2 ^ 32 }

-- `wrapping_sub` on `u32`
abbrev pub wrapping_sub : ℕ → ℕ → ℕ
wrapping_sub a b = (a + 2 ^ 32 - b) % 2 ^ 32

-- `peer_free`
unfoldable pub peer_free : ConnectionInfo → ℕ
peer_free info = info.peer_buf_alloc - wrapping_sub info.tx_cnt info.peer_fwd_cnt

-- `new_header`
unfoldable pub new_header : ConnectionInfo → ℕ → VirtioVsockHdr
new_header info src_cid = record default_header {
  src_cid = src_cid;
  dst_cid = info.dst.cid;
  src_port = info.src_port;
  dst_port = info.dst.port;
  buf_alloc = info.buf_alloc;
  fwd_cnt = info.fwd_cnt;
}

-- `matches_connection`
unfoldable pub matches_connection : VsockEvent → ConnectionInfo → ℕ → Bool
matches_connection event info guest_cid =
    same_addr event.source info.dst
    && (event.destination.cid == guest_cid)
    && (event.destination.port == info.src_port)

-- the `match` on the operation in `from_header`
abbrev pub event_type_of : VirtioVsockHdr → VirtioVsockOp → Parsed VsockEventType
event_type_of h request = check_data_is_empty h connection_request
event_type_of h response = check_data_is_empty h connected
event_type_of h credit_update = check_data_is_empty h credit_update_event
event_type_of h rst = check_data_is_empty h (disconnected reset)
event_type_of h shutdown = check_data_is_empty h (disconnected shutdown_reason)
event_type_of h rw_op = accepted (received h.len)
event_type_of h credit_request = check_data_is_empty h credit_request_event
event_type_of h invalid = rejected invalid_operation

abbrev pub with_type : VirtioVsockHdr → Parsed VsockEventType → Parsed VsockEvent
with_type h (rejected e) = rejected e
with_type h (accepted t) = accepted (record {
  source = source h;
  destination = destination h;
  buffer_status = record { buffer_allocation = h.buf_alloc; forward_count = h.fwd_cnt };
  event_type = t;
})

abbrev pub with_op : VirtioVsockHdr → Parsed VirtioVsockOp → Parsed VsockEvent
with_op h (rejected e) = rejected e
with_op h (accepted op) = with_type h (event_type_of h op)

-- `from_header`
unfoldable pub from_header : VirtioVsockHdr → Parsed VsockEvent
unfolding try_from_op
from_header h = with_op h (try_from_op h.op)
