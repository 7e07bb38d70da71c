-- ===== src/Socket/ConnectionManager/Effects.antt =====
-- What the handler of data and `recv` of src/device/socket/connectionmanager.rs do to the bytes of
-- a connection.
use virtio_drivers_and_devic.Prelude.{
  ℕ, ◌≡◌, ◌==◌, ◌&&◌, refl, sym, ◌∙◌, ap, ap₂, Bool, true, false, Option, some, List, length,
  get_elem?, set, length-tabulate,
}
use virtio_drivers_and_devic.Error.{
  Cmd, and_then, ok, err, socket_device_error, output_buffer_too_short,
}
use virtio_drivers_and_devic.Socket.Vec.{get_elem?-some_lt, get_elem?-set_same, set-set}
use virtio_drivers_and_devic.Socket.Protocol.{VsockAddr}
use virtio_drivers_and_devic.Socket.Event.{VsockEvent, received, update_for_event, done_forwarding}
use virtio_drivers_and_devic.Socket.ByteQueue
use virtio_drivers_and_devic.Socket.RingBuffer
use virtio_drivers_and_devic.Socket.RingBuffer.{RingBuffer}
use virtio_drivers_and_devic.Socket.RingBuffer.Contents
use virtio_drivers_and_devic.Socket.RingBuffer.Add.{add_refines}
use virtio_drivers_and_devic.Socket.RingBuffer.Drain.{drain_refines}
use virtio_drivers_and_devic.Socket.Connection.{Manager}
use virtio_drivers_and_devic.Socket.ConnectionManager.{
  Connection, Common, get_connection, get_connection_for_event, find, recv, close_if,
}
use virtio_drivers_and_devic.Socket.ConnectionManager.Poll.{must_fit, copy_data, deliver, handle}
use virtio_drivers_and_devic.Socket.ConnectionManager.Valid.{IsValid}

-- whether the bytes of a ring buffer are none
is_empty-contents : (b : RingBuffer) → RingBuffer.is_empty b ≡ (length (Contents.contents b) == 0)
unfolding RingBuffer.is_empty
is_empty-contents b = ap (λ (n : ℕ). n == 0) (sym (length-tabulate b.used (Contents.byte_at b)))

add-cap :
    (cap : ℕ) (r : RingBuffer) (bytes : List ℕ)
    → Contents.IsValid r
    → length r.buffer ≡ cap
    → let (done, q) = ByteQueue.add cap bytes (Contents.contents r) in
      (b : RingBuffer) × (Contents.contents b ≡ q) × (RingBuffer.add bytes r ≡ ok done b)
add-cap cap r bytes v e =
    let (b, is, q, g, l) = add_refines r bytes v in
    (
      b,
      q ∙ ap (λ (n : ℕ). (ByteQueue.add n bytes (Contents.contents r)).1) e,
      is ∙ ap (λ (n : ℕ). ok (ByteQueue.add n bytes (Contents.contents r)).0 b) e,
    )

module _ (M : Manager) where
  -- a packet of `n` bytes of data, taken or not
  abbrev pub taken : Bool → ℕ → VsockEvent → Cmd (Common M.State) (Option VsockEvent)
  taken true n event s = ok (some event) s
  taken false n event s = err (socket_device_error (output_buffer_too_short n)) s

  must_fit-taken :
      (done : Bool) (n : ℕ) (event : VsockEvent) (s : Common M.State)
      → and_then (must_fit M n done s) (λ _. ok (some event)) ≡ taken done n event s
  must_fit-taken true n event s = refl
  must_fit-taken false n event s = refl

  copy_data-added :
      (i n : ℕ) (done : Bool) (body : List ℕ) (c : Connection) (b : RingBuffer) (s : Common M.State)
      → get_elem? s.connections i ≡ some c
      → RingBuffer.add body c.buffer ≡ ok done b
      → copy_data M i body (received n) s
        ≡ must_fit M n done
            (record s { connections = set s.connections i (record c { buffer = b }) })
  copy_data-added i n done body c b s e is = rw (e, is) refl

  -- Where the connections are well formed, the handler of `poll`, for data on a connection that is
  -- known, does what the queue of bytes does: it appends the body to what the connection holds if
  -- that fits whole, and otherwise fails and keeps the bytes. In both cases the connection has
  -- learnt of the peer's buffer, and no other is changed.
  pub handle_refines :
      (i n : ℕ) (event : VsockEvent) (body : List ℕ) (c : Connection) (s : Common M.State)
      → IsValid s.per_connection_buffer_capacity s.connections
      → get_connection_for_event s.connections event M.local_cid ≡ some i
      → get_elem? s.connections i ≡ some c
      → event.event_type ≡ received n
      → let (done, q) =
          ByteQueue.add s.per_connection_buffer_capacity body (Contents.contents c.buffer) in
        (b : RingBuffer) × (Contents.contents b ≡ q)
        × (handle M event body s
            ≡ taken done n event (record s {
              connections =
                  set s.connections i
                    (record c { info = update_for_event event c.info; buffer = b });
            }))
  unfolding handle deliver
  handle_refines i n event body c s v found e t =
      let (b, q, is) =
        add-cap s.per_connection_buffer_capacity c.buffer body (v.each i c e).valid
          (v.each i c e).full_size in
      let lt = get_elem?-some_lt s.connections i c e in
      let c' = record c { info = update_for_event event c.info } in
      (
        b,
        q,
        rw (found, e)
            (ap (λ r. and_then r (λ _. ok (some event)))
                (ap
                    (λ ty.
                      copy_data M i body ty (record s { connections = set s.connections i c' }))
                    t
                  ∙ copy_data-added i n _ body c' b
                      (record s { connections = set s.connections i c' })
                      (get_elem?-set_same s.connections i c' lt) is)
              ∙ must_fit-taken _ n event _
              ∙ ap
                  (λ cs.
                    taken
                      (ByteQueue.add s.per_connection_buffer_capacity body
                        (Contents.contents c.buffer)).0
                      n event (record s { connections = cs }))
                  (set-set s.connections i c' (record c' { buffer = b }))),
      )

  -- Where the connections are well formed, `recv` on a connection that is known does what the queue
  -- of bytes does: it reads as many bytes as there are and as fit, in order. The connection counts
  -- them as forwarded, no other is changed, and it goes on to close the connection exactly if the
  -- peer asked for that and nothing is left to read.
  pub recv_refines :
      (i : ℕ) (peer : VsockAddr) (port : ℕ) (buffer : List ℕ) (c : Connection) (s : Common M.State)
      → IsValid s.per_connection_buffer_capacity s.connections
      → get_connection s.connections peer port ≡ some i
      → get_elem? s.connections i ≡ some c
      → let ((n, out), q) = ByteQueue.drain buffer (Contents.contents c.buffer) in
        (b : RingBuffer) × (Contents.contents b ≡ q)
        × (recv M peer port buffer s
            ≡ close_if M
                (c.peer_requested_shutdown && (length q == 0))
                i
                (n, out)
                (record s {
                  connections =
                      set s.connections i
                        (record c { info = done_forwarding n c.info; buffer = b });
                }))
  unfolding recv find
  recv_refines i peer port buffer c s v found e =
      let (b, is, q, g, same) = drain_refines c.buffer buffer (v.each i c e).valid in
      let lt = get_elem?-some_lt s.connections i c e in
      (
        b,
        q,
        rw (found, e, is, get_elem?-set_same s.connections i (record c { buffer = b }) lt)
            (ap₂
              (λ (bit : Bool) (cs : List Connection).
                close_if M (c.peer_requested_shutdown && bit) i
                  (ByteQueue.drain buffer (Contents.contents c.buffer)).0
                  (record s { connections = cs }))
              (is_empty-contents b ∙ ap (λ (bytes : List ℕ). length bytes == 0) q)
              (set-set s.connections i (record c { buffer = b }) _)),
      )
