-- ===== src/Socket/Event/Correct.antt =====
-- What headers of src/device/socket/vsock.rs mean to the peer, and what credit it gives.
use virtio_drivers_and_devic.Prelude.{ℕ, ◌+◌, ◌-◌, ◌%◌, ◌^◌, ◌≤◌, ◌<◌, ◌≡◌, true, arith, refl}
use virtio_drivers_and_devic.Socket.Protocol.{
  VirtioVsockHdr, VirtioVsockOp, check_data_is_empty, invalid, request, response, rst, shutdown,
  rw_op, credit_update, credit_request, accepted, try_from_op, from_op,
}
use virtio_drivers_and_devic.Socket.Event.{
  ConnectionInfo, VsockEvent, VsockEventType, connection_request, connected, disconnected, reset,
  shutdown_reason, received, credit_request_event, credit_update_event, update_for_event, peer_free,
  new_header, matches_connection, from_header, event_type_of,
}

-- An operation survives the wire.
pub try_from_op-from_op : (op : VirtioVsockOp) → try_from_op (from_op op) ≡ accepted op
unfolding try_from_op
try_from_op-from_op invalid = refl
try_from_op-from_op request = refl
try_from_op-from_op response = refl
try_from_op-from_op rst = refl
try_from_op-from_op shutdown = refl
try_from_op-from_op rw_op = refl
try_from_op-from_op credit_update = refl
try_from_op-from_op credit_request = refl

-- Of the bytes sent on a connection in all, the peer has forwarded some. Where the others are
-- within the buffer that it has allocated, `peer_free` is exactly the room left in it, although
-- the 32-bit counters of both may have wrapped around.
pub peer_free_exact :
    (info : ConnectionInfo) (sent forwarded : ℕ)
    → info.tx_cnt ≡ sent % 2 ^ 32
    → info.peer_fwd_cnt ≡ forwarded % 2 ^ 32
    → forwarded ≤ sent
    → sent - forwarded ≤ info.peer_buf_alloc
    → info.peer_buf_alloc < 2 ^ 32
    → peer_free info + (sent - forwarded) ≡ info.peer_buf_alloc
unfolding peer_free
peer_free_exact info sent forwarded e₁ e₂ h k l = omega arith

-- Only the numbers of operations are taken for one, and each for its own.
pub try_from_op-accepted :
    (v : ℕ) (op : VirtioVsockOp) → try_from_op v ≡ accepted op → from_op op ≡ v
unfolding try_from_op
try_from_op-accepted v op h = ground arith

-- `info` is the state at `cid` of a connection whose other end, at `peer_cid`, has the state
-- `peer`.
pub record Connected (info peer : ConnectionInfo) (cid peer_cid : ℕ) : Type 0 where
  pub dst_cid : info.dst.cid ≡ peer_cid
  pub dst_port : info.dst.port ≡ peer.src_port
  pub peer_dst_cid : peer.dst.cid ≡ cid
  pub peer_dst_port : peer.dst.port ≡ info.src_port

no_data :
    (h : VirtioVsockHdr) (t : VsockEventType) → h.len ≡ 0 → check_data_is_empty h t ≡ accepted t
no_data h t e = rw e refl

-- Each valid operation with the length that it may have has a type of event.
event_type-accepted :
    (h : VirtioVsockHdr) (op : VirtioVsockOp)
    → (op ≡ invalid → ⊥)
    → ((op ≡ rw_op → ⊥) → h.len ≡ 0)
    → (t : VsockEventType) × (event_type_of h op ≡ accepted t)
event_type-accepted h invalid valid empty = absurd (valid refl)
event_type-accepted h request valid empty =
    (connection_request, no_data h connection_request (empty (ground arith)))
event_type-accepted h response valid empty = (connected, no_data h connected (empty (ground arith)))
event_type-accepted h rst valid empty =
    (disconnected reset, no_data h (disconnected reset) (empty (ground arith)))
event_type-accepted h shutdown valid empty =
    (disconnected shutdown_reason, no_data h (disconnected shutdown_reason) (empty (ground arith)))
event_type-accepted h rw_op valid empty = (received h.len, refl)
event_type-accepted h credit_update valid empty =
    (credit_update_event, no_data h credit_update_event (empty (ground arith)))
event_type-accepted h credit_request valid empty =
    (credit_request_event, no_data h credit_request_event (empty (ground arith)))

-- A header that one end makes, with the number of a valid operation and the length of what it
-- carries, where only data packets carry anything, is an event for the other end, which matches its
-- state and tells it the buffer of the first end.
pub new_header-from_header :
    (info peer : ConnectionInfo) (cid peer_cid len flags : ℕ) (op : VirtioVsockOp)
    → Connected info peer cid peer_cid
    → (op ≡ invalid → ⊥)
    → ((op ≡ rw_op → ⊥) → len ≡ 0)
    → (event : VsockEvent) × (from_header
          (record (new_header info cid) { op = from_op op; len = len; flags = flags })
        ≡ accepted event)
      × (matches_connection event peer peer_cid ≡ true)
      × ((update_for_event event peer).peer_buf_alloc ≡ info.buf_alloc)
      × ((update_for_event event peer).peer_fwd_cnt ≡ info.fwd_cnt)
unfolding from_header new_header matches_connection update_for_event
new_header-from_header info peer cid peer_cid len flags op c valid empty =
    let h = record (new_header info cid) { op = from_op op; len = len; flags = flags } in
    let (t, e) = event_type-accepted h op valid empty in
    (
      record {
        source = record { cid = cid; port = info.src_port };
        destination = record { cid = info.dst.cid; port = info.dst.port };
        buffer_status = record { buffer_allocation = info.buf_alloc; forward_count = info.fwd_cnt };
        event_type = t;
      },
      rw (try_from_op-from_op op, e) refl,
      ground (arith, c.dst_cid, c.dst_port, c.peer_dst_cid, c.peer_dst_port),
      refl,
      refl,
    )
