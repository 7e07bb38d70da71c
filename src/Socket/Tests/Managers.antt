-- ===== src/Socket/Tests/Managers.antt =====
-- A manager with one connection, from port 50 of guest 3 to port 1234 of the host, for
-- src/device/socket/connectionmanager.rs.
use virtio_drivers_and_devic.Prelude.{
  ℕ, zero, suc, some, ◌+◌, ◌≡◌, ◌==◌, ◌&&◌, ◌++◌, ◌∙◌, sym, ap, refl, true, false, [], ◌∷◌, arith,
  get_elem?, set, length,
}
use virtio_drivers_and_devic.Error.{ok}
use virtio_drivers_and_devic.Socket.Protocol.{VirtioVsockHdr, VsockAddr, accepted}
use virtio_drivers_and_devic.Socket.Vec.{position}
use virtio_drivers_and_devic.Socket.Packet.{read_header_and_body, as_bytes}
use virtio_drivers_and_devic.Socket.Packet.RoundTrip.{
  Within, read_header_and_body-as_bytes, read_header_and_body-Within,
}
use virtio_drivers_and_devic.Socket.Event.{
  VsockEvent, received, connection_request, update_for_event, done_forwarding, matches_connection,
  from_header,
}
use virtio_drivers_and_devic.Socket.ByteQueue
use virtio_drivers_and_devic.Socket.RingBuffer.{RingBuffer}
use virtio_drivers_and_devic.Socket.RingBuffer.Contents
use virtio_drivers_and_devic.Socket.Connection.{Manager}
use virtio_drivers_and_devic.Socket.ConnectionManager.{
  Connection, Common, new_with_capacity, has_ends, get_connection, get_connection_for_event,
  accept_connection, close, close_if, recv,
}
use virtio_drivers_and_devic.Socket.ConnectionManager.Poll.{handle, poll, poll_direct}
use virtio_drivers_and_devic.Socket.ConnectionManager.Valid.{IsValid, Good, SameEnds}
use virtio_drivers_and_devic.Socket.ConnectionManager.Sound.{Steady, Keeps, Always}
use virtio_drivers_and_devic.Socket.ConnectionManager.Operations.{accept_connection-Keeps}
use virtio_drivers_and_devic.Socket.ConnectionManager.Reacting.{GoodOffer, poll_direct-Keeps}
use virtio_drivers_and_devic.Socket.ConnectionManager.Session.{
  listen_op, connect_op, poll_op, poll_direct_op, recv_op, close_op, run_from,
  run_from-new_with_capacity,
}
use virtio_drivers_and_devic.Socket.ConnectionManager.Effects.{taken, handle_refines, recv_refines}
use virtio_drivers_and_devic.Socket.ConnectionManager.Closing.{
  Gone, close-Gone, poll_known_request-Gone,
}

-- a data packet of two bytes from the host
abbrev data_packet : VirtioVsockHdr
data_packet = record {
  src_cid = 2;
  dst_cid = 3;
  src_port = 1234;
  dst_port = 50;
  len = 2;
  socket_type = 1;
  op = 5;
  flags = 0;
  buf_alloc = 100;
  fwd_cnt = 0;
}

-- a driver that gets this packet again and again, and counts what it sends
abbrev repeating : Manager
repeating = record {
  State = ℕ;
  local_cid = 3;
  send_packet_to_queue = λ header body s. ok tt (s + 1);
  has_memory = λ n s. true;
  begin_poll = λ s. ok (some (as_bytes data_packet ++ (7 ∷ 8 ∷ []))) s;
  end_poll = λ s. ok tt s;
}

repeating-Steady : Steady repeating
repeating-Steady = record { sends = λ h b s. tt; begins = λ s. tt; ends = λ s. tt }

-- `read_header_and_body-as_bytes` and `read_header_and_body-Within` apply to the packet.
read_header_and_body-as_bytes_example :
    read_header_and_body (as_bytes data_packet ++ ((7 ∷ 8 ∷ []) ++ (9 ∷ [])))
    ≡ accepted (data_packet, 7 ∷ 8 ∷ [])
read_header_and_body-as_bytes_example =
    read_header_and_body-as_bytes data_packet (7 ∷ 8 ∷ []) (9 ∷ []) (omega arith) refl

read_header_and_body-Within_example : Within (1 ∷ 2 ∷ []) (read_header_and_body (1 ∷ 2 ∷ []))
read_header_and_body-Within_example =
    read_header_and_body-Within (1 ∷ 2 ∷ []) (omega arith, (omega arith, tt))

abbrev host : VsockAddr
host = record { cid = 2; port = 1234 }

-- `run_from-new_with_capacity` applies to calls that connect, receive, read and close.
run_from-new_with_capacity_example :
    (s : Common ℕ) × (run_from repeating
        (listen_op 80
          ∷ connect_op host 50
          ∷ poll_op
          ∷ recv_op host 50 (0 ∷ [])
          ∷ poll_direct_op
          ∷ close_op host 50
          ∷ [])
        (some (new_with_capacity repeating 0 4))
      ≡ some s)
    × (s.per_connection_buffer_capacity ≡ 4)
    × IsValid 4 s.connections
run_from-new_with_capacity_example =
    run_from-new_with_capacity repeating
      (listen_op 80
        ∷ connect_op host 50
        ∷ poll_op
        ∷ recv_op host 50 (0 ∷ [])
        ∷ poll_direct_op
        ∷ close_op host 50
        ∷ [])
      0 4 repeating-Steady (λ n s. refl) (omega arith)

-- the connection, with two bytes to read of the four that fit, which the peer wants to be the last
abbrev connection : Connection
connection = record {
  info = record {
    dst = host;
    src_port = 50;
    peer_buf_alloc = 100;
    peer_fwd_cnt = 0;
    tx_cnt = 0;
    buf_alloc = 4;
    fwd_cnt = 0;
    has_pending_credit_request = false;
  };
  buffer = record { buffer = 6 ∷ 0 ∷ 0 ∷ 5 ∷ []; used = 2; start = 3 };
  peer_requested_shutdown = true;
}

abbrev common : Common ℕ
common = record {
  driver = 0;
  per_connection_buffer_capacity = 4;
  connections = connection ∷ [];
  listening_ports = [];
}

one_place :
    {c : Connection} (i : ℕ) → get_elem? common.connections i ≡ some c → (i ≡ 0) × (c ≡ connection)
one_place zero h = (refl, some_eq h)
  where
    some_eq : {c : Connection} → some connection ≡ some c → c ≡ connection
    some_eq h = cc
one_place (suc i) h = absurd (ground arith)

connection-Good : Good 4 connection
connection-Good = record { valid = omega arith; full_size = refl; announced = refl }

common-IsValid : IsValid 4 common.connections
common-IsValid = record {
  room = omega arith;
  each = λ i c h. rw ((one_place i h).1) connection-Good;
  distinct = λ i j c d h h' e. (one_place i h).0 ∙ sym (one_place j h').0;
}

-- `poll_direct-Keeps` applies to the manager.
poll_direct-Keeps_example :
    Keeps 4
      (λ offered t. GoodOffer repeating repeating-Steady (λ n s. refl) 4 offered t.connections)
      (poll_direct repeating common)
poll_direct-Keeps_example =
    poll_direct-Keeps repeating repeating-Steady (λ n s. refl) 4 common (refl, common-IsValid)

-- a connection to another port
abbrev second : Connection
second = record connection { info = record connection.info { src_port = 51 } }

second-Good : Good 4 second
second-Good = record { valid = omega arith; full_size = refl; announced = refl }

second-Fresh :
    (i : ℕ) (d : Connection)
    → get_elem? common.connections i ≡ some d
    → ¬ SameEnds d.info second.info
second-Fresh i d h (a, b, c) =
    ground (arith, ap (λ (x : Connection). x.info.src_port) (one_place i h).1, c)

-- `accept_connection-Keeps` applies to it.
accept_connection-Keeps_example : Keeps 4 Always (accept_connection repeating second common)
accept_connection-Keeps_example =
    accept_connection-Keeps repeating repeating-Steady 4 second common (refl, common-IsValid)
      second-Good second-Fresh

is_there : get_connection common.connections host 50 ≡ some 0
unfolding get_connection position
is_there = refl

-- `recv_refines` applies to a read of three bytes.
recv_refines_example :
    let ((n, out), q) = ByteQueue.drain (9 ∷ 9 ∷ 9 ∷ []) (Contents.contents connection.buffer) in
    (b : RingBuffer) × (Contents.contents b ≡ q)
    × (recv repeating host 50 (9 ∷ 9 ∷ 9 ∷ []) common
        ≡ close_if repeating
            (true && (length q == 0))
            0
            (n, out)
            (record common {
              connections =
                  set common.connections 0
                    (record connection { info = done_forwarding n connection.info; buffer = b });
            }))
recv_refines_example =
    recv_refines repeating 0 host 50 (9 ∷ 9 ∷ 9 ∷ []) connection common common-IsValid is_there refl

-- `close-Gone` applies to it.
close-Gone_example : Gone (has_ends host 50) (close repeating host 50 common)
close-Gone_example = close-Gone repeating repeating-Steady 0 host 50 common common-IsValid is_there

-- data from the host, and a request from it
abbrev data_event : VsockEvent
data_event = record {
  source = host;
  destination = record { cid = 3; port = 50 };
  buffer_status = record { buffer_allocation = 100; forward_count = 0 };
  event_type = received 2;
}

abbrev request_event : VsockEvent
request_event = record data_event { event_type = connection_request }

data_is_for : get_connection_for_event common.connections data_event 3 ≡ some 0
unfolding get_connection_for_event matches_connection position
data_is_for = refl

request_is_for : get_connection_for_event common.connections request_event 3 ≡ some 0
unfolding get_connection_for_event matches_connection position
request_is_for = refl

-- `handle_refines` applies to the data.
handle_refines_example :
    let (done, q) = ByteQueue.add 4 (7 ∷ 8 ∷ []) (Contents.contents connection.buffer) in
    (b : RingBuffer) × (Contents.contents b ≡ q)
    × (handle repeating data_event (7 ∷ 8 ∷ []) common
        ≡ taken repeating done 2 data_event (record common {
          connections = set common.connections 0 (record connection {
            info = update_for_event data_event connection.info;
            buffer = b;
          });
        }))
handle_refines_example =
    handle_refines repeating 0 2 data_event (7 ∷ 8 ∷ []) connection common common-IsValid
      data_is_for refl refl

-- a request from the same port, and a driver that gets it
abbrev request_packet : VirtioVsockHdr
request_packet = record data_packet { len = 0; op = 1 }

abbrev requested : Manager
requested = record {
  State = ℕ;
  local_cid = 3;
  send_packet_to_queue = λ header body s. ok tt (s + 1);
  has_memory = λ n s. true;
  begin_poll = λ s. ok (some (as_bytes request_packet ++ ([] ++ []))) s;
  end_poll = λ s. ok tt s;
}

requested-Steady : Steady requested
requested-Steady = record { sends = λ h b s. tt; begins = λ s. tt; ends = λ s. tt }

request_is_read : from_header request_packet ≡ accepted request_event
unfolding from_header
request_is_read = refl

-- `poll_known_request-Gone` applies to the request.
poll_known_request-Gone_example :
    Gone (λ c. matches_connection request_event c.info 3) (poll requested common)
poll_known_request-Gone_example =
    poll_known_request-Gone requested requested-Steady 0 request_event
      (as_bytes request_packet ++ ([] ++ [])) [] request_packet common common.driver common.driver
      common-IsValid refl (read_header_and_body-as_bytes request_packet [] [] (omega arith) refl)
      request_is_read refl request_is_for refl refl
