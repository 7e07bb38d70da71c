-- ===== src/Socket/Connection.antt =====
-- The operations of `VirtIOSocketManager` on a connection, in src/device/socket/vsock.rs.
pub mod Correct
use virtio_drivers_and_devic.Prelude.{
  ℕ, ◌+◌, ◌%◌, ◌^◌, leb, if◌then◌else◌, bit_and, Bool, true, false, Option, List, [], length,
}
use Prim.Native.Nat.{bit_or}
use virtio_drivers_and_devic.Error.{
  Cmd, Run, ok, err, panic, socket_device_error, insufficient_buffer_space_in_peer, ◌>>=◌, ◌>>◌,
  get, put, pure, fail,
}
use virtio_drivers_and_devic.Socket.Protocol.{
  VirtioVsockHdr, VirtioVsockOp, request, response, rst, shutdown, rw_op, credit_update,
  credit_request, from_op,
}
use virtio_drivers_and_devic.Socket.Event.{ConnectionInfo, peer_free, new_header}

-- What an implementation of the trait supplies: `local_cid`, `send_packet_to_queue` and `poll`. The
-- last takes the bytes of a packet from a queue, hands them to its caller, and gives the buffer
-- back afterwards, whatever comes of them.
pub record Manager : Type 1 where
  pub State : Type 0
  pub local_cid : ℕ
  pub send_packet_to_queue : VirtioVsockHdr → List ℕ → Cmd State (Unit {0})
  -- whether the allocator has a block of the given number of bytes
  pub has_memory : ℕ → State → Bool
  pub begin_poll : Cmd State (Option (List ℕ))
  pub end_poll : Cmd State (Unit {0})

-- a connection, behind its lock, and the state of the manager
pub record Shared (S : Type 0) : Type 0 where
  pub info : ConnectionInfo
  pub state : S

-- the bits of `StreamShutdown`
abbrev pub receive_hint : ℕ
receive_hint = 1

abbrev pub send_hint : ℕ
send_hint = 2

module _ (M : Manager) where
  abbrev pub keep_info : ConnectionInfo → Run M.State (Unit {0}) → Run (Shared M.State) (Unit {0})
  keep_info info (ok a s) = ok a (record { info = info; state = s })
  keep_info info (err e s) = err e (record { info = info; state = s })
  keep_info info panic = panic

  -- the packet with this header, with the lock released
  abbrev pub send_packet : VirtioVsockHdr → List ℕ → Cmd (Shared M.State) (Unit {0})
  send_packet header body c = keep_info c.info (M.send_packet_to_queue header body c.state)

  -- a packet that is only a header
  abbrev pub send_op : VirtioVsockOp → ℕ → Cmd (Shared M.State) (Unit {0})
  send_op op flags = do
    c ← get
    send_packet (record (new_header c.info M.local_cid) { op = from_op op; flags = flags }) []

  -- `connect` of the driver
  unfoldable pub connect_to : Cmd (Shared M.State) (Unit {0})
  connect_to = send_op request 0

  -- `accept`
  unfoldable pub accept : Cmd (Shared M.State) (Unit {0})
  accept = send_op response 0

  -- `request_credit`
  unfoldable pub request_credit : Cmd (Shared M.State) (Unit {0})
  request_credit = send_op credit_request 0

  -- `credit_update`
  unfoldable pub update_credit : Cmd (Shared M.State) (Unit {0})
  update_credit = send_op credit_update 0

  -- `shutdown_with_hints` and `shutdown`
  unfoldable pub shutdown_with_hints : ℕ → Cmd (Shared M.State) (Unit {0})
  shutdown_with_hints hints = send_op shutdown hints

  unfoldable pub shut_down : Cmd (Shared M.State) (Unit {0})
  unfolding shutdown_with_hints
  shut_down = shutdown_with_hints (bit_or send_hint receive_hint)

  -- `force_close`
  unfoldable pub force_close : Cmd (Shared M.State) (Unit {0})
  force_close = send_op rst 0

  -- the credit request of `check_peer_buffer_is_sufficient`, unless one is pending
  abbrev pub request_once : Bool → Cmd (Shared M.State) (Unit {0})
  request_once true = pure tt
  request_once false = do
    c ← get
    put (record c { info = record c.info { has_pending_credit_request = true } })
    request_credit

  -- `check_peer_buffer_is_sufficient`
  unfoldable pub check_peer_buffer_is_sufficient : ℕ → Cmd (Shared M.State) (Unit {0})
  unfolding peer_free request_credit
  check_peer_buffer_is_sufficient buffer_len = do
    c ← get
    if leb buffer_len (peer_free c.info) then pure tt else do
      request_once c.info.has_pending_credit_request
      fail (socket_device_error insufficient_buffer_space_in_peer)

  -- `send`
  unfoldable pub send : List ℕ → Cmd (Shared M.State) (Unit {0})
  send buffer = do
    check_peer_buffer_is_sufficient (length buffer)
    c ← get
    let len = length buffer % 2 ^ 32
    put (record c { info = record c.info { tx_cnt = (c.info.tx_cnt + len) % 2 ^ 32 } })
    send_packet (record (new_header c.info M.local_cid) { op = from_op rw_op; len = len }) buffer
