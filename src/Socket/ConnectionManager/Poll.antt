-- ===== src/Socket/ConnectionManager/Poll.antt =====
-- `poll` and `poll_direct` of `VsockConnectionManagerCommon` in
-- src/device/socket/connectionmanager.rs, over the `poll` of a driver in
-- src/device/socket/vsock.rs.
use virtio_drivers_and_devic.Prelude.{
  ℕ, ◌==◌, not, if◌then◌else◌, Bool, true, false, Option, none, some, List, length, get_elem?, set,
}
use virtio_drivers_and_devic.Error.{
  Cmd, Run, ok, err, panic, socket_device_error, output_buffer_too_short, ◌>>=◌, ◌>>◌, get, pure,
  fail, unwrap,
}
use virtio_drivers_and_devic.Socket.Protocol.{VirtioVsockHdr, Parsed, accepted, rejected}
use virtio_drivers_and_devic.Socket.Event.{
  VsockEvent, VsockEventType, connection_request, connected, disconnected, received,
  credit_request_event, credit_update_event, DisconnectReason, reset, shutdown_reason,
  update_for_event, from_header,
}
use virtio_drivers_and_devic.Socket.Packet.{read_header_and_body}
use virtio_drivers_and_devic.Socket.Connection.{Manager, accept, update_credit, force_close}
use virtio_drivers_and_devic.Socket.RingBuffer
use virtio_drivers_and_devic.Socket.RingBuffer.{RingBuffer}
use virtio_drivers_and_devic.Socket.ConnectionManager.{
  Connection, Common, new_connection, get_connection_for_event, contains, on_driver, on_connection,
  on_removed, remove, set_connections, push_back, store_buffer,
}

module _ (M : Manager) where
  -- what a handler of events may return
  abbrev pub Handler {ℓ} : Type ℓ → Type ℓ
  Handler A = VsockEvent → List ℕ → Cmd (Common M.State) (Option A)

  -- the closure in a driver's `poll`, for the bytes of a packet
  abbrev pub handle_event {ℓ} :
      {A : Type ℓ} → Handler A → List ℕ → Parsed VsockEvent → Cmd (Common M.State) (Option A)
  handle_event handler body (rejected e) = fail (socket_device_error e)
  handle_event handler body (accepted event) = handler event body

  abbrev pub handle_parsed {ℓ} :
      {A : Type ℓ} → Handler A → Parsed (VirtioVsockHdr × List ℕ) → Cmd (Common M.State) (Option A)
  handle_parsed handler (rejected e) = fail (socket_device_error e)
  handle_parsed handler (accepted (header, body)) = handle_event handler body (from_header header)

  -- the buffer of the packet is given back, whatever the handler returned
  abbrev pub give_back {ℓ} : {A : Type ℓ} → Run (Common M.State) A → Run (Common M.State) A
  give_back (ok a s) = (do on_driver M M.end_poll; pure a) s
  give_back (err e s) = (do on_driver M M.end_poll; fail e) s
  give_back panic = panic

  abbrev pub handle_packet {ℓ} :
      {A : Type ℓ} → Handler A → Option (List ℕ) → Cmd (Common M.State) (Option A)
  handle_packet handler none = pure none
  handle_packet handler (some bytes) =
      λ s. give_back (handle_parsed handler (read_header_and_body bytes) s)

  -- a driver's `poll`
  unfoldable pub driver_poll {ℓ} : {A : Type ℓ} → Handler A → Cmd (Common M.State) (Option A)
  driver_poll handler = do packet ← on_driver M M.begin_poll; handle_packet handler packet

  -- data that does not fit is an error
  abbrev pub must_fit : ℕ → Bool → Cmd (Common M.State) (Unit {0})
  must_fit length true = pure tt
  must_fit length false = fail (socket_device_error (output_buffer_too_short length))

  -- the data of an event, put into the buffer of the connection in the given place
  abbrev pub copy_data : ℕ → List ℕ → VsockEventType → Cmd (Common M.State) (Unit {0})
  copy_data i body (received length) = do
    s ← get
    c ← unwrap (get_elem? s.connections i)
    done ← λ t. store_buffer M i c t (RingBuffer.add body c.buffer)
    must_fit length done
  copy_data i body _ = pure tt

  -- the end of both handlers: the connection learns of the event
  unfoldable pub deliver : ℕ → Handler VsockEvent
  unfolding update_for_event RingBuffer.add
  deliver i event body = do
    s ← get
    c ← unwrap (get_elem? s.connections i)
    set_connections M (set s.connections i (record c { info = update_for_event event c.info }))
    copy_data i body event.event_type
    pure (some event)

  -- an event for no known connection
  abbrev pub unknown : VsockEventType → Handler VsockEvent
  unknown connection_request event body = do
    s ← get
    if not (event.destination.cid == M.local_cid) then pure none else do
      let capacity = s.per_connection_buffer_capacity
      c ← unwrap (
          new_connection (M.has_memory capacity s.driver) event.source event.destination.port
            capacity)
      push_back M c
      deliver (length s.connections) event body
  unknown _ event body = pure none

  abbrev pub handle_for : Option ℕ → Handler VsockEvent
  handle_for (some i) event body = deliver i event body
  handle_for none event body = unknown event.event_type event body

  -- the closure of `poll`
  unfoldable pub handle : Handler VsockEvent
  unfolding deliver get_connection_for_event new_connection
  handle event body = do
    s ← get
    handle_for (get_connection_for_event s.connections event M.local_cid) event body

  -- a connection request, by whether the port is listened on
  abbrev pub answer_request : Bool → ℕ → VsockEvent → Cmd (Common M.State) (Option VsockEvent)
  answer_request true i event = do on_connection M i (accept M); pure (some event)
  answer_request false i event = do c ← remove M i; on_removed M c (force_close M); pure none

  -- a disconnection, by whether the buffer is empty
  abbrev pub reset_after : DisconnectReason → Connection → Cmd (Common M.State) (Unit {0})
  reset_after shutdown_reason c = on_removed M c (force_close M)
  reset_after reset c = pure tt

  abbrev pub disconnect : Bool → DisconnectReason → ℕ → Cmd (Common M.State) (Unit {0})
  disconnect true reason i = do c ← remove M i; reset_after reason c
  disconnect false reason i = do
    s ← get
    c ← unwrap (get_elem? s.connections i)
    set_connections M (set s.connections i (record c { peer_requested_shutdown = true }))

  -- the `match` at the end of `poll`
  unfoldable pub react : VsockEventType → ℕ → VsockEvent → Cmd (Common M.State) (Option VsockEvent)
  unfolding on_connection remove on_removed RingBuffer.is_empty
  react connection_request i event = do
    s ← get
    answer_request (contains s.listening_ports event.destination.port) i event
  react connected i event = pure (some event)
  react (disconnected reason) i event = do
    s ← get
    c ← unwrap (get_elem? s.connections i)
    disconnect (RingBuffer.is_empty c.buffer) reason i
    pure (some event)
  react (received length) i event = pure (some event)
  react credit_request_event i event = do on_connection M i (update_credit M); pure none
  react credit_update_event i event = pure (some event)

  abbrev pub react_to : Option VsockEvent → Cmd (Common M.State) (Option VsockEvent)
  react_to none = pure none
  react_to (some event) = do
    s ← get
    i ← unwrap (get_connection_for_event s.connections event M.local_cid)
    react event.event_type i event

  -- `poll`
  unfoldable pub poll : Cmd (Common M.State) (Option VsockEvent)
  unfolding driver_poll handle react
  poll = do result ← driver_poll handle; react_to result

  -- an event with the connection that it offers
  abbrev pub Offer : Type 0
  Offer = VsockEvent × Option Connection

  abbrev pub without_offer : Option VsockEvent → Cmd (Common M.State) (Option Offer)
  without_offer none = pure none
  without_offer (some event) = pure (some (event, none))

  -- the closure of `poll_direct`, for an event of a known connection
  abbrev pub handle_known : VsockEventType → ℕ → Handler Offer
  handle_known (disconnected reset) i event body = do c ← remove M i; pure (some (event, none))
  handle_known _ i event body = do delivered ← deliver i event body; without_offer delivered

  abbrev pub handle_direct_for : Option ℕ → Handler Offer
  handle_direct_for none event body = pure none
  handle_direct_for (some i) event body = handle_known event.event_type i event body

  -- a request on a port that is listened on offers a new connection, which is in no list yet
  abbrev pub offer : Bool → VsockEvent → Cmd (Common M.State) (Option Offer)
  offer false event = pure none
  offer true event = do
    s ← get
    let capacity = s.per_connection_buffer_capacity
    c ← unwrap (
        new_connection (M.has_memory capacity s.driver) event.source event.destination.port
          capacity)
    pure (some (event, some (record c { info = update_for_event event c.info })))

  abbrev pub handle_direct_type : VsockEventType → Handler Offer
  handle_direct_type connection_request event body = do
    s ← get
    offer (contains s.listening_ports event.destination.port) event
  handle_direct_type _ event body = do
    s ← get
    handle_direct_for (get_connection_for_event s.connections event M.local_cid) event body

  -- the closure of `poll_direct`
  unfoldable pub handle_direct : Handler Offer
  unfolding deliver get_connection_for_event new_connection remove update_for_event
  handle_direct event body =
      if not (event.destination.cid == M.local_cid)
      then pure none
      else handle_direct_type event.event_type event body

  -- `poll_direct`
  unfoldable pub poll_direct : Cmd (Common M.State) (Option Offer)
  unfolding driver_poll handle_direct
  poll_direct = driver_poll handle_direct
