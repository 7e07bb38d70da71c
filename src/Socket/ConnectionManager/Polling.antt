-- ===== src/Socket/ConnectionManager/Polling.antt =====
-- `poll` and `poll_direct` of src/device/socket/connectionmanager.rs keep the connections well
-- formed.
use virtio_drivers_and_devic.Prelude.{
  ℕ, ◌≡◌, ◌==◌, inl, inr, refl, ◌∙◌, ap, arith, Bool, true, false, Bool-cases, Option, some, none,
  List, [], ◌∷◌, ◌++◌, length, get_elem?, set,
}
use virtio_drivers_and_devic.Error.{Run, ok, err, panic}
use virtio_drivers_and_devic.Socket.Vec.{
  position-some, position-none, position-is_some, get_elem?-some_lt, get_elem?-set_same,
  get_elem?-append_last,
}
use virtio_drivers_and_devic.Socket.Protocol.{VirtioVsockHdr, Parsed, accepted, rejected}
use virtio_drivers_and_devic.Socket.Event
use virtio_drivers_and_devic.Socket.Event.{
  ConnectionInfo, VsockEvent, VsockEventType, connection_request, connected, disconnected, received,
  credit_request_event, credit_update_event, DisconnectReason, reset, shutdown_reason,
  update_for_event, matches_connection, from_header,
}
use virtio_drivers_and_devic.Socket.Packet.{read_header_and_body}
use virtio_drivers_and_devic.Socket.RingBuffer
use virtio_drivers_and_devic.Socket.RingBuffer.{RingBuffer}
use virtio_drivers_and_devic.Socket.RingBuffer.Add.{add_refines}
use virtio_drivers_and_devic.Socket.Connection.{Manager}
use virtio_drivers_and_devic.Socket.ConnectionManager.{
  Connection, Common, new_connection, get_connection_for_event, on_driver, store_buffer,
}
use virtio_drivers_and_devic.Socket.ConnectionManager.Poll.{
  Handler, handle_event, handle_parsed, give_back, handle_packet, driver_poll, must_fit, copy_data,
  deliver, unknown, handle_for, handle,
}
use virtio_drivers_and_devic.Socket.ConnectionManager.Valid.{
  Good, SameEnds, set-IsValid, append-IsValid,
}
use virtio_drivers_and_devic.Socket.ConnectionManager.Sound.{
  Steady, HasMemory, Valid, Keeps, and_then-Keeps, on_driver-Keeps, store_buffer-Keeps,
}
use virtio_drivers_and_devic.Socket.ConnectionManager.Operations.{
  fresh_connection, fresh_connection-Good,
}

-- A change of the buffer status leaves the ends alone, and a new connection is that of its event.
pub updated_matches :
    (event : VsockEvent) (info : ConnectionInfo) (cid : ℕ)
    → matches_connection event info cid ≡ true
    → matches_connection event (update_for_event event info) cid ≡ true
unfolding matches_connection update_for_event
updated_matches event info cid h = h

new_matches :
    (event : VsockEvent) (cid n : ℕ)
    → (event.destination.cid == cid) ≡ true
    → matches_connection event (fresh_connection event.source event.destination.port n).info cid
      ≡ true
unfolding matches_connection Event.new
new_matches event cid n h = ground arith

match-SameEnds :
    (event : VsockEvent) (d : ConnectionInfo) (cid n : ℕ)
    → (event.destination.cid == cid) ≡ true
    → SameEnds d (fresh_connection event.source event.destination.port n).info
    → matches_connection event d cid ≡ true
unfolding matches_connection Event.new
match-SameEnds event d cid n h (a, b, c) = ground (arith, a, b, c)

pub updated-Good :
    (cap : ℕ) (event : VsockEvent) (c : Connection)
    → Good cap c
    → Good cap (record c { info = update_for_event event c.info })
unfolding update_for_event
updated-Good cap event c g = record {
  valid = g.valid;
  full_size = g.full_size;
  announced = g.announced;
}

clash : {b : Bool} → b ≡ true → b ≡ false → ⊥
clash h g = ground (arith, h, g)

module _ (M : Manager) (steady : Steady M) (cap : ℕ) where
  -- The connection of the event that a handler returned is there.
  abbrev pub There : Option VsockEvent → List Connection → Type 0
  There none cs = Unit {0}
  There (some event) cs = (i : ℕ) × (get_connection_for_event cs event M.local_cid ≡ some i)

  abbrev pub Delivered : Option VsockEvent → Common M.State → Type 0
  Delivered event t = There event t.connections

  -- What stands in the place `i` has the given info.
  abbrev Info : ℕ → ConnectionInfo → Common M.State → Type 0
  Info i info t = (d : Connection) × (get_elem? t.connections i ≡ some d) × (d.info ≡ info)

  must_fit-Keeps :
      (length : ℕ) (done : Bool) (Q : Common M.State → Type 0) (s : Common M.State)
      → Valid cap s
      → Q s
      → Keeps cap (λ a t. Q t) (must_fit M length done s)
  must_fit-Keeps length true Q s v q = (v, q)
  must_fit-Keeps length false Q s v q = v

  copy_data-Keeps :
      (i : ℕ) (body : List ℕ) (t : VsockEventType) (c : Connection) (s : Common M.State)
      → Valid cap s
      → get_elem? s.connections i ≡ some c
      → Keeps cap (λ a u. Info i c.info u) (copy_data M i body t s)
  copy_data-Keeps i body connection_request c s v e = (v, (c, e, refl))
  copy_data-Keeps i body connected c s v e = (v, (c, e, refl))
  copy_data-Keeps i body (disconnected reason) c s v e = (v, (c, e, refl))
  copy_data-Keeps i body (received n) c s v e =
      let (b, is, q, g, l) = add_refines c.buffer body (v.1.each i c e).valid in
      rw e (
        and_then-Keeps cap _ (λ a u. Info i c.info u)
          (store_buffer M i c s (RingBuffer.add body c.buffer)) (must_fit M n)
          (store_buffer-Keeps M steady cap i c s (RingBuffer.add body c.buffer) _ b v e is g l)
          (λ done u w (same, k). must_fit-Keeps n done (Info i c.info) u w (
            record c { buffer = b },
            ap (λ cs. get_elem? cs i) k
                ∙ get_elem?-set_same s.connections i _ (get_elem?-some_lt s.connections i c e),
            refl,
          )))
  copy_data-Keeps i body credit_request_event c s v e = (v, (c, e, refl))
  copy_data-Keeps i body credit_update_event c s v e = (v, (c, e, refl))

  -- An event for a connection that is there and that it matches.
  pub deliver-Keeps :
      (i : ℕ) (event : VsockEvent) (body : List ℕ) (c : Connection) (s : Common M.State)
      → Valid cap s
      → get_elem? s.connections i ≡ some c
      → matches_connection event c.info M.local_cid ≡ true
      → Keeps cap Delivered (deliver M i event body s)
  unfolding deliver get_connection_for_event
  deliver-Keeps i event body c s (p, v) e m =
      let c' = record c { info = update_for_event event c.info } in
      let s' = record s { connections = set s.connections i c' } in
      rw e (
        and_then-Keeps cap (λ a u. Info i c'.info u) Delivered
          (copy_data M i body event.event_type s') _
          (copy_data-Keeps i body event.event_type c' s'
            (
              p,
              set-IsValid cap s.connections v i c c' e (updated-Good cap event c (v.each i c e))
                  (refl, refl, refl),
            )
            (get_elem?-set_same s.connections i c' (get_elem?-some_lt s.connections i c e)))
          (λ a u w (d, f, same). (
            w,
            position-is_some _ u.connections i d f (
                ap (λ (x : ConnectionInfo). matches_connection event x M.local_cid) same
                ∙ updated_matches event c.info M.local_cid m),
          )))

  -- A request for a connection that no event before was for.
  requested-Keeps :
      HasMemory M
      → (event : VsockEvent) (body : List ℕ) (s : Common M.State) → Valid cap s
      → get_connection_for_event s.connections event M.local_cid ≡ none
      → Keeps cap Delivered (unknown M connection_request event body s)
  unfolding get_connection_for_event new_connection deliver
  requested-Keeps memory event body s (p, v) none_there =
      elim (Bool-cases (event.destination.cid == M.local_cid)) [
        | inl ours ↦
            let c =
              fresh_connection event.source event.destination.port
                s.per_connection_buffer_capacity in
            rw (ours, memory s.per_connection_buffer_capacity s.driver)
              (deliver-Keeps (length s.connections) event body c
                (record s { connections = s.connections ++ (c ∷ []) })
                (
                  p,
                  append-IsValid cap s.connections v c
                      (fresh_connection-Good cap s.per_connection_buffer_capacity event.source
                        event.destination.port v.room p)
                      (λ i d e same.
                        clash
                          (match-SameEnds event d.info M.local_cid s.per_connection_buffer_capacity
                            ours same)
                          (position-none _ s.connections none_there i d e)),
                )
                (get_elem?-append_last s.connections c)
                (new_matches event M.local_cid s.per_connection_buffer_capacity ours))
        | inr other ↦ rw other ((p, v), tt)
      ]

  unknown-Keeps :
      HasMemory M
      → (t : VsockEventType) (event : VsockEvent) (body : List ℕ) (s : Common M.State) → Valid cap s
      → get_connection_for_event s.connections event M.local_cid ≡ none
      → Keeps cap Delivered (unknown M t event body s)
  unknown-Keeps memory connection_request event body s v h = requested-Keeps memory event body s v h
  unknown-Keeps memory connected event body s v h = (v, tt)
  unknown-Keeps memory (disconnected reason) event body s v h = (v, tt)
  unknown-Keeps memory (received n) event body s v h = (v, tt)
  unknown-Keeps memory credit_request_event event body s v h = (v, tt)
  unknown-Keeps memory credit_update_event event body s v h = (v, tt)

  pub handle-Keeps :
      HasMemory M
      → (event : VsockEvent) (body : List ℕ) (s : Common M.State) → Valid cap s
      → Keeps cap Delivered (handle M event body s)
  unfolding handle get_connection_for_event
  handle-Keeps memory event body s v =
      kept (get_connection_for_event s.connections event M.local_cid) refl
    where
      kept :
          (r : Option ℕ)
          → get_connection_for_event s.connections event M.local_cid ≡ r
          → Keeps cap Delivered (handle_for M r event body s)
      kept none h = unknown-Keeps memory event.event_type event body s v h
      kept (some i) h =
          let (c, e, m) = position-some _ s.connections i h in deliver-Keeps i event body c s v e m

  -- A handler that keeps the connections well formed, behind `poll` of the driver, when what it
  -- returns depends on the connections alone.
  pub driver_poll-Keeps :
      {A : Type 0} (handler : Handler M A) (Q : Option A → List Connection → Type 0)
      (s : Common M.State)
      → Valid cap s
      → ((cs : List Connection) → Q none cs)
      → ((event : VsockEvent) (body : List ℕ) (t : Common M.State)
          → Valid cap t
          → Keeps cap (λ a u. Q a u.connections) (handler event body t))
      → Keeps cap (λ a t. Q a t.connections) (driver_poll M handler s)
  unfolding driver_poll
  driver_poll-Keeps {A = A} handler Q s v q h =
      and_then-Keeps cap _ _ (on_driver M M.begin_poll s) (handle_packet M handler)
        (on_driver-Keeps M steady cap M.begin_poll (λ t. Unit {0}) s v (steady.begins s.driver)
          (λ d. tt))
        (λ packet t w k. packet-Keeps packet t w)
    where
      given_back :
          (r : Run (Common M.State) (Option A))
          → Keeps cap (λ a u. Q a u.connections) r
          → Keeps cap (λ a u. Q a u.connections) (give_back M r)
      given_back (ok a t) (w, k) =
          and_then-Keeps cap _ _ (on_driver M M.end_poll t) (λ x. ok a)
            (on_driver-Keeps M steady cap M.end_poll (λ u. Q a u.connections) t w
              (steady.ends t.driver) (λ d. k))
            (λ x u z l. (z, l))
      given_back (err e t) w =
          and_then-Keeps cap _ _ (on_driver M M.end_poll t) (λ x. err e)
            (on_driver-Keeps M steady cap M.end_poll (λ u. Unit {0}) t w (steady.ends t.driver)
              (λ d. tt))
            (λ x u z l. z)
      given_back panic n = n

      parsed :
          (r : Parsed (VirtioVsockHdr × List ℕ)) (t : Common M.State)
          → Valid cap t
          → Keeps cap (λ a u. Q a u.connections) (handle_parsed M handler r t)
      parsed (rejected e) t w = w
      parsed (accepted (header, body)) t w = event_of (from_header header)
        where
          event_of :
              (r : Parsed VsockEvent)
              → Keeps cap (λ a u. Q a u.connections) (handle_event M handler body r t)
          event_of (rejected e) = w
          event_of (accepted event) = h event body t w

      packet-Keeps :
          (packet : Option (List ℕ)) (t : Common M.State)
          → Valid cap t
          → Keeps cap (λ a u. Q a u.connections) (handle_packet M handler packet t)
      packet-Keeps none t w = (w, q t.connections)
      packet-Keeps (some bytes) t w = given_back _ (parsed (read_header_and_body bytes) t w)
