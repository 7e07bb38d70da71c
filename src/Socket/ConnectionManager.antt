-- ===== src/Socket/ConnectionManager.antt =====
-- `VsockConnectionManagerCommon` of src/device/socket/connectionmanager.rs, with the calls that its
-- two wrappers add. One call runs at a time: what another thread does while the list of connections
-- is unlocked is not modelled, and a shared connection is its place in the list.
pub mod Poll
pub mod Valid
pub mod Sound
pub mod Operations
pub mod Polling
pub mod Reacting
pub mod Session
pub mod Effects
pub mod Closing
use virtio_drivers_and_devic.Prelude.{
  ℕ, ◌+◌, ◌-◌, ◌==◌, ◌&&◌, not, ltb, if◌then◌else◌, Bool, true, false, Option, none, some, List, [],
  ◌∷◌, ◌++◌, length, get_elem?, set, is_some,
}
use virtio_drivers_and_devic.Error.{
  Cmd, Run, ok, err, panic, Error, SocketError, socket_device_error, not_connected,
  connection_exists, ◌>>=◌, ◌>>◌, get, put, pure, fail, assert, unwrap,
}
use virtio_drivers_and_devic.Socket.Vec.{position, swap_remove, but_last}
use virtio_drivers_and_devic.Socket.Protocol.{VsockAddr, same_addr}
use virtio_drivers_and_devic.Socket.Event
use virtio_drivers_and_devic.Socket.Event.{
  ConnectionInfo, VsockEvent, done_forwarding, matches_connection,
}
use virtio_drivers_and_devic.Socket.Connection.{
  Manager, Shared, connect_to, send as driver_send, accept, update_credit, shut_down, force_close,
}
use virtio_drivers_and_devic.Socket.RingBuffer
use virtio_drivers_and_devic.Socket.RingBuffer.{RingBuffer}

-- `Connection`
pub record Connection : Type 0 where
  pub info : ConnectionInfo
  pub buffer : RingBuffer
  pub peer_requested_shutdown : Bool

-- the end of `Connection::new`, with its buffer
abbrev pub with_buffer : VsockAddr → ℕ → ℕ → Option RingBuffer → Option Connection
with_buffer peer local_port capacity none = none
with_buffer peer local_port capacity (some buffer) = some (record {
  info = record (Event.new peer local_port) { buf_alloc = capacity };
  buffer = buffer;
  peer_requested_shutdown = false;
})

-- `Connection::new`, by whether there is memory for its buffer; `none` is the failed allocation
unfoldable pub new_connection : Bool → VsockAddr → ℕ → ℕ → Option Connection
unfolding Event.new RingBuffer.new
new_connection has_memory peer local_port capacity =
    with_buffer peer local_port capacity (RingBuffer.new has_memory capacity)

-- `VsockConnectionManagerCommon`, with what its lock protects
pub record Common (S : Type 0) : Type 0 where
  pub driver : S
  pub per_connection_buffer_capacity : ℕ
  pub connections : List Connection
  pub listening_ports : List ℕ

-- whether a connection has the given ends
abbrev pub has_ends : VsockAddr → ℕ → Connection → Bool
has_ends peer local_port c = same_addr c.info.dst peer && (c.info.src_port == local_port)

-- `get_connection`, for the index
unfoldable pub get_connection : List Connection → VsockAddr → ℕ → Option ℕ
get_connection connections peer local_port = position (has_ends peer local_port) connections

-- `get_connection_for_event`, for the index
unfoldable pub get_connection_for_event : List Connection → VsockEvent → ℕ → Option ℕ
unfolding matches_connection
get_connection_for_event connections event local_cid =
    position (λ c. matches_connection event c.info local_cid) connections

-- `contains` and `retain` on the ports
abbrev pub contains : List ℕ → ℕ → Bool
contains [] port = false
contains (p ∷ ps) port = if p == port then true else contains ps port

abbrev pub without : List ℕ → ℕ → List ℕ
without [] port = []
without (p ∷ ps) port = if p == port then without ps port else p ∷ without ps port

module _ (M : Manager) where
  -- `new_with_capacity` of both wrappers
  unfoldable pub new_with_capacity : M.State → ℕ → Common M.State
  new_with_capacity driver capacity = record {
    driver = driver;
    per_connection_buffer_capacity = capacity;
    connections = [];
    listening_ports = [];
  }

  abbrev pub set_connections : List Connection → Cmd (Common M.State) (Unit {0})
  set_connections cs = do s ← get; put (record s { connections = cs })

  -- a call of the driver that concerns no connection
  abbrev pub keep_rest {ℓ} : {A : Type ℓ} → Common M.State → Run M.State A → Run (Common M.State) A
  keep_rest s (ok a d) = ok a (record s { driver = d })
  keep_rest s (err e d) = err e (record s { driver = d })
  keep_rest s panic = panic

  abbrev pub on_driver {ℓ} : {A : Type ℓ} → Cmd M.State A → Cmd (Common M.State) A
  on_driver op s = keep_rest s (op s.driver)

  -- a call of the driver on the connection in the given place
  abbrev pub store_info :
      ℕ
      → Connection
      → Common M.State
      → Run (Shared M.State) (Unit {0})
      → Run (Common M.State) (Unit {0})
  store_info i c s (ok a h) = ok a (record s {
    driver = h.state;
    connections = set s.connections i (record c { info = h.info });
  })
  store_info i c s (err e h) = err e (record s {
    driver = h.state;
    connections = set s.connections i (record c { info = h.info });
  })
  store_info i c s panic = panic

  unfoldable pub on_connection :
      ℕ → Cmd (Shared M.State) (Unit {0}) → Cmd (Common M.State) (Unit {0})
  on_connection i op = do
    s ← get
    c ← unwrap (get_elem? s.connections i)
    λ t. store_info i c t (op (record { info = c.info; state = t.driver }))

  -- a call of the driver on a connection that is in no list any more
  abbrev pub drop_info :
      Common M.State → Run (Shared M.State) (Unit {0}) → Run (Common M.State) (Unit {0})
  drop_info s (ok a h) = ok a (record s { driver = h.state })
  drop_info s (err e h) = err e (record s { driver = h.state })
  drop_info s panic = panic

  unfoldable pub on_removed :
      Connection → Cmd (Shared M.State) (Unit {0}) → Cmd (Common M.State) (Unit {0})
  on_removed c op s = drop_info s (op (record { info = c.info; state = s.driver }))

  -- `inner.connections.swap_remove(index)`
  unfoldable pub remove : ℕ → Cmd (Common M.State) Connection
  remove i = do
    s ← get
    c ← unwrap (get_elem? s.connections i)
    rest ← unwrap (swap_remove s.connections i)
    set_connections rest
    pure c

  -- the connection with the given ends, or `NotConnected`
  abbrev pub found : Option ℕ → Cmd (Common M.State) ℕ
  found none = fail (socket_device_error not_connected)
  found (some i) = pure i

  unfoldable pub find : VsockAddr → ℕ → Cmd (Common M.State) ℕ
  unfolding get_connection
  find peer local_port = do s ← get; found (get_connection s.connections peer local_port)

  -- `listen` and `unlisten`
  unfoldable pub listen : ℕ → Cmd (Common M.State) (Unit {0})
  listen port = do
    s ← get
    put (record s {
      listening_ports =
          if contains s.listening_ports port
          then s.listening_ports
          else s.listening_ports ++ (port ∷ []);
    })

  unfoldable pub unlisten : ℕ → Cmd (Common M.State) (Unit {0})
  unlisten port = do s ← get; put (record s { listening_ports = without s.listening_ports port })

  -- `send`
  unfoldable pub send : VsockAddr → ℕ → List ℕ → Cmd (Common M.State) (Unit {0})
  unfolding find on_connection
  send destination src_port buffer = do
    i ← find destination src_port
    on_connection i (driver_send M buffer)

  -- `update_credit`
  unfoldable pub send_credit : VsockAddr → ℕ → Cmd (Common M.State) (Unit {0})
  unfolding find on_connection
  send_credit peer src_port = do i ← find peer src_port; on_connection i (update_credit M)

  -- `shutdown`
  unfoldable pub shutdown : VsockAddr → ℕ → Cmd (Common M.State) (Unit {0})
  unfolding find on_connection
  shutdown destination src_port = do i ← find destination src_port; on_connection i (shut_down M)

  -- `force_close`
  unfoldable pub close : VsockAddr → ℕ → Cmd (Common M.State) (Unit {0})
  unfolding find remove on_removed
  close destination src_port = do
    i ← find destination src_port
    c ← remove i
    on_removed c (force_close M)

  -- `recv_buffer_available_bytes`
  unfoldable pub recv_buffer_available_bytes : VsockAddr → ℕ → Cmd (Common M.State) ℕ
  unfolding find
  recv_buffer_available_bytes peer src_port = do
    i ← find peer src_port
    s ← get
    c ← unwrap (get_elem? s.connections i)
    pure c.buffer.used

  -- the ring buffer of the connection in the given place
  abbrev pub store_buffer {ℓ} :
      {A : Type ℓ} → ℕ → Connection → Common M.State → Run RingBuffer A → Run (Common M.State) A
  store_buffer i c s (ok a r) =
      ok a (record s { connections = set s.connections i (record c { buffer = r }) })
  store_buffer i c s (err e r) =
      err e (record s { connections = set s.connections i (record c { buffer = r }) })
  store_buffer i c s panic = panic

  -- the end of `recv`: the connection is closed if the peer asked for that and all is read
  abbrev pub close_if {ℓ} : {A : Type ℓ} → Bool → ℕ → A → Cmd (Common M.State) A
  close_if false i a = pure a
  close_if true i a = do c ← remove i; on_removed c (force_close M); pure a

  abbrev pub forwarded : ℕ → ℕ × List ℕ → Cmd (Common M.State) (ℕ × List ℕ)
  forwarded i (n, out) = do
    s ← get
    c ← unwrap (get_elem? s.connections i)
    set_connections (set s.connections i (record c { info = done_forwarding n c.info }))
    close_if (c.peer_requested_shutdown && RingBuffer.is_empty c.buffer) i (n, out)

  -- `recv`: the number of bytes read, and the client's buffer with them at its front
  unfoldable pub recv : VsockAddr → ℕ → List ℕ → Cmd (Common M.State) (ℕ × List ℕ)
  unfolding find remove on_removed done_forwarding RingBuffer.is_empty
  recv peer src_port buffer = do
    i ← find peer src_port
    s ← get
    c ← unwrap (get_elem? s.connections i)
    read ← λ t. store_buffer i c t (RingBuffer.drain buffer c.buffer)
    forwarded i read

  -- the new connection at the end of the list, or the list without it when the call failed
  abbrev pub push_back : Connection → Cmd (Common M.State) (Unit {0})
  push_back c = do s ← get; set_connections (s.connections ++ (c ∷ []))

  abbrev pub unless_failed : Run (Common M.State) (Unit {0}) → Run (Common M.State) (Unit {0})
  unless_failed (ok a s) = ok a s
  unless_failed (err e s) = err e (record s { connections = but_last s.connections })
  unless_failed panic = panic

  -- `accept` of both wrappers
  unfoldable pub accept_connection : Connection → Cmd (Common M.State) (Unit {0})
  unfolding on_connection
  accept_connection c = do
    s ← get
    push_back c
    λ t. unless_failed (on_connection (length s.connections) (accept M) t)

  -- `connect` of the driver's wrapper
  unfoldable pub connect : VsockAddr → ℕ → Cmd (Common M.State) (Unit {0})
  unfolding on_connection new_connection
  connect destination src_port = do
    s ← get
    if is_some (position (has_ends destination src_port) s.connections)
        then fail (socket_device_error connection_exists)
        else do
          let capacity = s.per_connection_buffer_capacity
          c ← unwrap (new_connection (M.has_memory capacity s.driver) destination src_port capacity)
          push_back c
          λ t. unless_failed (on_connection (length s.connections) (connect_to M) t)
