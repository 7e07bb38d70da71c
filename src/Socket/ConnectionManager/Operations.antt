-- ===== src/Socket/ConnectionManager/Operations.antt =====
-- The operations of a client in src/device/socket/connectionmanager.rs keep the connections well
-- formed.
use virtio_drivers_and_devic.Prelude.{
  ℕ, ◌<◌, ◌≡◌, refl, ◌∙◌, ap, arith, Bool, true, false, Option, some, none, List, [], ◌∷◌, ◌++◌,
  length, get_elem?, set, length-replicate,
}
use virtio_drivers_and_devic.Error.{Cmd, Run, ok, err, panic, and_then}
use virtio_drivers_and_devic.Socket.Vec.{
  position, position-some, position-none, get_elem?-some_lt, get_elem?-set_same,
  get_elem?-append_last,
}
use virtio_drivers_and_devic.Socket.Protocol.{VsockAddr}
use virtio_drivers_and_devic.Socket.Event
use virtio_drivers_and_devic.Socket.Event.{ConnectionInfo, done_forwarding}
use virtio_drivers_and_devic.Socket.ByteQueue
use virtio_drivers_and_devic.Socket.RingBuffer
use virtio_drivers_and_devic.Socket.RingBuffer.{RingBuffer}
use virtio_drivers_and_devic.Socket.RingBuffer.Contents
use virtio_drivers_and_devic.Socket.RingBuffer.Drain.{drain_refines}
use virtio_drivers_and_devic.Socket.Connection.{Manager, Shared, connect_to, accept, force_close}
use virtio_drivers_and_devic.Socket.ConnectionManager.{
  Connection, Common, has_ends, on_connection, on_removed, remove, found, find, get_connection,
  store_buffer, unless_failed, send, send_credit, shutdown, close, recv_buffer_available_bytes,
  recv, forwarded, close_if, accept_connection, connect,
}
use virtio_drivers_and_devic.Socket.ConnectionManager.Valid.{
  Good, SameEnds, set-IsValid, append-IsValid, but_last-IsValid,
}
use virtio_drivers_and_devic.Socket.ConnectionManager.Sound.{
  Steady, HasMemory, KeptRun, Valid, Keeps, Always, and_then-Keeps, connect_to-KeptRun,
  send-KeptRun, accept-KeptRun, update_credit-KeptRun, shut_down-KeptRun, force_close-KeptRun,
  on_connection-Keeps, on_removed-Keeps, remove-Keeps, store_buffer-Keeps,
}

-- A connection with the given ends is found under them, and only such a one.
abbrev pub Fresh : List Connection → ConnectionInfo → Type 0
Fresh cs info = (i : ℕ) (d : Connection) → get_elem? cs i ≡ some d → ¬ SameEnds d.info info

has_ends-SameEnds :
    (peer : VsockAddr) (port : ℕ) (d : Connection)
    → (d.info.dst.cid ≡ peer.cid) × (d.info.dst.port ≡ peer.port) × (d.info.src_port ≡ port)
    → has_ends peer port d ≡ true
has_ends-SameEnds peer port d (a, b, c) = ground (arith, a, b, c)

-- what `Connection::new` returns where there is memory
abbrev pub fresh_connection : VsockAddr → ℕ → ℕ → Connection
fresh_connection peer port n = record {
  info = record (Event.new peer port) { buf_alloc = n };
  buffer = RingBuffer.empty_buffer n;
  peer_requested_shutdown = false;
}

pub fresh_connection-Good :
    (cap n : ℕ) (peer : VsockAddr) (port : ℕ)
    → 0 < cap
    → n ≡ cap
    → Good cap (fresh_connection peer port n)
unfolding Event.new
fresh_connection-Good cap n peer port h e = record {
  valid = omega (arith, length-replicate {A = ℕ} n 0);
  full_size = length-replicate {A = ℕ} n 0 ∙ e;
  announced = e;
}

-- What is not found under its ends is new.
absent-Fresh :
    (cs : List Connection) (peer : VsockAddr) (port n : ℕ)
    → position (has_ends peer port) cs ≡ none
    → Fresh cs (fresh_connection peer port n).info
unfolding Event.new
absent-Fresh cs peer port n h i d e same =
    ground
      (arith, position-none (has_ends peer port) cs h i d e, has_ends-SameEnds peer port d same)

module _ (M : Manager) (steady : Steady M) (cap : ℕ) where
  -- what `find` finds
  abbrev Found : VsockAddr → ℕ → ℕ → Common M.State → Type 0
  Found peer port i t =
      (c : Connection) × (get_elem? t.connections i ≡ some c) × (has_ends peer port c ≡ true)

  find-Keeps :
      (peer : VsockAddr) (port : ℕ) (s : Common M.State)
      → Valid cap s
      → Keeps cap (Found peer port) (find M peer port s)
  unfolding find get_connection
  find-Keeps peer port s v = kept (position (has_ends peer port) s.connections) refl
    where
      kept :
          (r : Option ℕ)
          → position (has_ends peer port) s.connections ≡ r
          → Keeps cap (Found peer port) (found M r s)
      kept none e = v
      kept (some i) e = (v, position-some (has_ends peer port) s.connections i e)

  -- One after the other: a lookup and a call of the driver on what it finds.
  on_found-Keeps :
      (peer : VsockAddr) (port : ℕ) (op : Cmd (Shared M.State) (Unit {0})) (s : Common M.State)
      → Valid cap s
      → ((h : Shared M.State) → KeptRun h.info (op h))
      → Keeps cap Always (and_then (find M peer port s) (λ i. on_connection M i op))
  on_found-Keeps peer port op s v k =
      and_then-Keeps cap (Found peer port) Always (find M peer port s) (λ i. on_connection M i op)
        (find-Keeps peer port s v)
        (λ i t w (c, e, is). on_connection-Keeps M steady cap i c op t w e k)

  pub send-Keeps :
      (peer : VsockAddr) (port : ℕ) (buffer : List ℕ) (s : Common M.State)
      → Valid cap s
      → Keeps cap Always (send M peer port buffer s)
  unfolding send
  send-Keeps peer port buffer s v = on_found-Keeps peer port _ s v (send-KeptRun M steady buffer)

  pub send_credit-Keeps :
      (peer : VsockAddr) (port : ℕ) (s : Common M.State)
      → Valid cap s
      → Keeps cap Always (send_credit M peer port s)
  unfolding send_credit
  send_credit-Keeps peer port s v = on_found-Keeps peer port _ s v (update_credit-KeptRun M steady)

  pub shutdown-Keeps :
      (peer : VsockAddr) (port : ℕ) (s : Common M.State)
      → Valid cap s
      → Keeps cap Always (shutdown M peer port s)
  unfolding shutdown
  shutdown-Keeps peer port s v = on_found-Keeps peer port _ s v (shut_down-KeptRun M steady)

  -- The removal of a connection that is there, and the packet that tells its peer.
  pub remove_and_close-Keeps :
      (i : ℕ) (c : Connection) (s : Common M.State)
      → Valid cap s
      → get_elem? s.connections i ≡ some c
      → Keeps cap Always (and_then (remove M i s) (λ d. on_removed M d (force_close M)))
  remove_and_close-Keeps i c s v e =
      and_then-Keeps cap (λ d t. d ≡ c) Always (remove M i s) _
        (remove-Keeps M steady cap i c s v e)
        (λ d t w same. on_removed-Keeps M steady cap d _ t w (force_close-KeptRun M steady))

  pub close-Keeps :
      (peer : VsockAddr) (port : ℕ) (s : Common M.State)
      → Valid cap s
      → Keeps cap Always (close M peer port s)
  unfolding close
  close-Keeps peer port s v =
      and_then-Keeps cap (Found peer port) Always (find M peer port s) _ (find-Keeps peer port s v)
        (λ i t w (c, e, is). remove_and_close-Keeps i c t w e)

  pub recv_buffer_available_bytes-Keeps :
      (peer : VsockAddr) (port : ℕ) (s : Common M.State)
      → Valid cap s
      → Keeps cap Always (recv_buffer_available_bytes M peer port s)
  unfolding recv_buffer_available_bytes
  recv_buffer_available_bytes-Keeps peer port s v =
      and_then-Keeps cap (Found peer port) Always (find M peer port s) _ (find-Keeps peer port s v)
        (λ i t w (c, e, is). rw e (w, tt))

  unless_failed-Keeps :
      (r : Run (Common M.State) (Unit {0}))
      → Keeps cap Always r
      → Keeps cap Always (unless_failed M r)
  unless_failed-Keeps (ok a s) h = h
  unless_failed-Keeps (err e s) (p, v) = (p, but_last-IsValid cap s.connections v)
  unless_failed-Keeps panic h = h

  -- The list with one more connection, whose ends are new, and a call of the driver on it.
  added-Keeps :
      (c : Connection) (op : Cmd (Shared M.State) (Unit {0})) (s : Common M.State)
      → Valid cap s
      → Good cap c
      → Fresh s.connections c.info
      → ((h : Shared M.State) → KeptRun h.info (op h))
      → Keeps cap Always (
          unless_failed M (
            on_connection M
              (length s.connections)
              op
              (record s { connections = s.connections ++ (c ∷ []) })))
  added-Keeps c op s (p, v) g fresh k = unless_failed-Keeps _ (
      on_connection-Keeps M steady cap (length s.connections) c op _
        (p, append-IsValid cap s.connections v c g fresh) (get_elem?-append_last s.connections c) k)

  -- `accept` of a well-formed connection, such as `poll_direct` offers, whose ends no known
  -- connection has, on a driver whose queues do not panic, returns or fails with well-formed
  -- connections.
  pub accept_connection-Keeps :
      (c : Connection) (s : Common M.State)
      → Valid cap s
      → Good cap c
      → Fresh s.connections c.info
      → Keeps cap Always (accept_connection M c s)
  unfolding accept_connection
  accept_connection-Keeps c s v g fresh =
      added-Keeps c (accept M) s v g fresh (accept-KeptRun M steady)

  pub connect-Keeps :
      HasMemory M
      → (peer : VsockAddr) (port : ℕ) (s : Common M.State) → Valid cap s
      → Keeps cap Always (connect M peer port s)
  unfolding connect
  connect-Keeps memory peer port s (p, v) = kept (position (has_ends peer port) s.connections) refl
    where
      kept :
          (r : Option ℕ)
          → position (has_ends peer port) s.connections ≡ r
          → Keeps cap Always (connect M peer port s)
      kept none e =
          rw (e, memory s.per_connection_buffer_capacity s.driver)
            (added-Keeps _ (connect_to M) s (p, v)
              (fresh_connection-Good cap s.per_connection_buffer_capacity peer port v.room p)
              (absent-Fresh s.connections peer port s.per_connection_buffer_capacity e)
              (connect_to-KeptRun M steady))
      kept (some i) e = rw e (p, v)

  close_if-Keeps :
      {A : Type 0} (b : Bool) (i : ℕ) (a : A) (c : Connection) (s : Common M.State)
      → Valid cap s
      → get_elem? s.connections i ≡ some c
      → Keeps cap Always (close_if M b i a s)
  close_if-Keeps false i a c s v e = (v, tt)
  close_if-Keeps true i a c s v e =
      and_then-Keeps cap (λ d t. d ≡ c) Always (remove M i s) _
        (remove-Keeps M steady cap i c s v e)
        (λ d t w same.
          and_then-Keeps cap Always Always (on_removed M d (force_close M) t) _
            (on_removed-Keeps M steady cap d _ t w (force_close-KeptRun M steady))
            (λ x u z q. (z, tt)))

  forwarded-Keeps :
      (i : ℕ) (read : ℕ × List ℕ) (c : Connection) (s : Common M.State)
      → Valid cap s
      → get_elem? s.connections i ≡ some c
      → Keeps cap Always (forwarded M i read s)
  unfolding done_forwarding
  forwarded-Keeps i read c s (p, v) e =
      let g = v.each i c e in
      rw e (
        close_if-Keeps _ i read (record c { info = done_forwarding read.0 c.info })
          (record s {
            connections = set s.connections i (record c { info = done_forwarding read.0 c.info });
          })
          (
            p,
            set-IsValid cap s.connections v i c _ e
                (record { valid = g.valid; full_size = g.full_size; announced = g.announced })
                (refl, refl, refl),
          )
          (get_elem?-set_same s.connections i _ (get_elem?-some_lt s.connections i c e)))

  pub recv-Keeps :
      (peer : VsockAddr) (port : ℕ) (buffer : List ℕ) (s : Common M.State)
      → Valid cap s
      → Keeps cap Always (recv M peer port buffer s)
  unfolding recv
  recv-Keeps peer port buffer s v =
      and_then-Keeps cap (Found peer port) Always (find M peer port s) _ (find-Keeps peer port s v)
        (λ i t w (c, e, is).
          rw e (read i t w c e (drain_refines c.buffer buffer (w.1.each i c e).valid)))
    where
      read :
          (i : ℕ) (t : Common M.State) (w : Valid cap t) (c : Connection)
          → get_elem? t.connections i ≡ some c
          → (r' : RingBuffer) × (RingBuffer.drain buffer c.buffer
              ≡ ok (ByteQueue.drain buffer (Contents.contents c.buffer)).0 r')
            × (Contents.contents r' ≡ (ByteQueue.drain buffer (Contents.contents c.buffer)).1)
            × Contents.IsValid r'
            × (r'.buffer ≡ c.buffer.buffer)
          → Keeps cap Always
              (and_then (store_buffer M i c t (RingBuffer.drain buffer c.buffer)) (forwarded M i))
      read i t w c e (b, is, q, g, same) =
          and_then-Keeps cap _ Always (store_buffer M i c t (RingBuffer.drain buffer c.buffer))
            (forwarded M i)
            (store_buffer-Keeps M steady cap i c t (RingBuffer.drain buffer c.buffer) _ b w e is g
              (ap length same))
            (λ x u z (r, l).
              forwarded-Keeps i x (record c { buffer = b }) u z
                (ap (λ cs. get_elem? cs i) l
                  ∙ get_elem?-set_same t.connections i _ (get_elem?-some_lt t.connections i c e)))
