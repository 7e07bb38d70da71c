-- ===== src/Socket/Tests/Packets.antt =====
-- Packets between port 50 of guest 3 and port 1234 of the host, for src/device/socket/vsock.rs.
use virtio_drivers_and_devic.Prelude.{ℕ, none, ◌+◌, ◌-◌, ◌≡◌, refl, true, false, [], ◌∷◌, arith}
use virtio_drivers_and_devic.Error.{ok}
use virtio_drivers_and_devic.Socket.Protocol.{rw_op, accepted, try_from_op, from_op}
use virtio_drivers_and_devic.Socket.Event.{
  ConnectionInfo, VsockEvent, peer_free, new_header, from_header, matches_connection,
  update_for_event,
}
use virtio_drivers_and_devic.Socket.Event.Correct.{
  try_from_op-from_op, peer_free_exact, new_header-from_header,
}
use virtio_drivers_and_devic.Socket.Connection.{Manager, send}
use virtio_drivers_and_devic.Socket.Connection.Correct.{SendOutcome, send-SendOutcome}

-- The guest has sent 10 bytes more than `2 ^ 32`, of which the host has forwarded all but 30.
abbrev guest : ConnectionInfo
guest = record {
  dst = record { cid = 2; port = 1234 };
  src_port = 50;
  peer_buf_alloc = 100;
  peer_fwd_cnt = 4294967276;
  tx_cnt = 10;
  buf_alloc = 1024;
  fwd_cnt = 7;
  has_pending_credit_request = false;
}

abbrev host : ConnectionInfo
host = record guest { dst = record { cid = 3; port = 50 }; src_port = 1234 }

-- `try_from_op-from_op` applies to data packets.
try_from_op-from_op_example : try_from_op 5 ≡ accepted rw_op
try_from_op-from_op_example = try_from_op-from_op rw_op

-- `peer_free_exact` applies to the guest.
peer_free_exact_example : peer_free guest + (4294967306 - 4294967276) ≡ 100
peer_free_exact_example =
    peer_free_exact guest 4294967306 4294967276 refl refl (omega arith) (omega arith) (omega arith)

-- `new_header-from_header` applies to a data packet from the guest.
new_header-from_header_example :
    (event : VsockEvent) × (from_header
        (record (new_header guest 3) { op = from_op rw_op; len = 8; flags = 0 })
      ≡ accepted event)
    × (matches_connection event host 2 ≡ true)
    × ((update_for_event event host).peer_buf_alloc ≡ 1024)
    × ((update_for_event event host).peer_fwd_cnt ≡ 7)
new_header-from_header_example =
    new_header-from_header guest host 3 2 8 0 rw_op
      (record { dst_cid = refl; dst_port = refl; peer_dst_cid = refl; peer_dst_port = refl })
      (ground arith) (λ h. absurd (h refl))

-- a manager that counts its packets
abbrev counting_packets : Manager
counting_packets = record {
  State = ℕ;
  local_cid = 3;
  send_packet_to_queue = λ header body s. ok tt (s + 1);
  has_memory = λ n s. true;
  begin_poll = λ s. ok none s;
  end_poll = λ s. ok tt s;
}

-- `send-SendOutcome` applies to 5 bytes.
send-SendOutcome_example :
    SendOutcome counting_packets
      (1 ∷ 2 ∷ 3 ∷ 4 ∷ 5 ∷ [])
      4294967306
      4294967276
      (record { info = guest; state = 0 })
      (send counting_packets (1 ∷ 2 ∷ 3 ∷ 4 ∷ 5 ∷ []) (record { info = guest; state = 0 }))
send-SendOutcome_example =
    send-SendOutcome counting_packets (1 ∷ 2 ∷ 3 ∷ 4 ∷ 5 ∷ []) 4294967306 4294967276
      (record { info = guest; state = 0 })
      (record {
        counted = refl;
        told = refl;
        order = omega arith;
        within = omega arith;
        small = omega arith;
      })
