-- ===== src/Socket/ConnectionManager/Reacting.antt =====
-- What `poll` of src/device/socket/connectionmanager.rs does with an event after its handler, and
-- both polls as a whole.
use virtio_drivers_and_devic.Prelude.{
  ℕ, ◌≡◌, ◌==◌, inl, inr, refl, Bool, true, false, Bool-cases, Option, some, none, List, get_elem?,
}
use virtio_drivers_and_devic.Error.{and_then}
use virtio_drivers_and_devic.Socket.Vec.{position-some}
use virtio_drivers_and_devic.Socket.Event.{
  VsockEvent, VsockEventType, connection_request, connected, disconnected, received,
  credit_request_event, credit_update_event, DisconnectReason, reset, shutdown_reason,
  matches_connection,
}
use virtio_drivers_and_devic.Socket.RingBuffer
use virtio_drivers_and_devic.Socket.Connection.{Manager, accept, update_credit, force_close}
use virtio_drivers_and_devic.Socket.ConnectionManager.{
  Connection, Common, new_connection, get_connection_for_event, contains, on_connection, on_removed,
  remove,
}
use virtio_drivers_and_devic.Socket.ConnectionManager.Poll.{
  driver_poll, deliver, handle, answer_request, reset_after, disconnect, react, react_to, poll,
  Offer, without_offer, handle_known, handle_direct_for, offer, handle_direct_type, handle_direct,
  poll_direct,
}
use virtio_drivers_and_devic.Socket.ConnectionManager.Valid.{Good, set-IsValid}
use virtio_drivers_and_devic.Socket.ConnectionManager.Sound.{
  Steady, HasMemory, Valid, Keeps, Always, and_then-Keeps, accept-KeptRun, update_credit-KeptRun,
  force_close-KeptRun, on_connection-Keeps, on_removed-Keeps, remove-Keeps,
}
use virtio_drivers_and_devic.Socket.ConnectionManager.Operations.{fresh_connection-Good}
use virtio_drivers_and_devic.Socket.ConnectionManager.Polling.{
  There, Delivered, deliver-Keeps, handle-Keeps, driver_poll-Keeps, updated-Good,
}

module _ (M : Manager) (steady : Steady M) (memory : HasMemory M) (cap : ℕ) where
  module _ (i : ℕ) (event : VsockEvent) (c : Connection) (s : Common M.State) (v : Valid cap s)
      (e : get_elem? s.connections i ≡ some c) where
    answer_request-Keeps : (b : Bool) → Keeps cap Always (answer_request M b i event s)
    answer_request-Keeps true =
        and_then-Keeps cap Always Always (on_connection M i (accept M) s) _
          (on_connection-Keeps M steady cap i c (accept M) s v e (accept-KeptRun M steady))
          (λ a t w q. (w, tt))
    answer_request-Keeps false =
        and_then-Keeps cap (λ d t. d ≡ c) Always (remove M i s) _
          (remove-Keeps M steady cap i c s v e)
          (λ d t w same.
            and_then-Keeps cap Always Always (on_removed M d (force_close M) t) _
              (on_removed-Keeps M steady cap d _ t w (force_close-KeptRun M steady))
              (λ a u z q. (z, tt)))

    reset_after-Keeps :
        (reason : DisconnectReason) (d : Connection) (t : Common M.State)
        → Valid cap t
        → Keeps cap Always (reset_after M reason d t)
    reset_after-Keeps shutdown_reason d t w =
        on_removed-Keeps M steady cap d _ t w (force_close-KeptRun M steady)
    reset_after-Keeps reset d t w = (w, tt)

    disconnect-Keeps :
        (b : Bool) (reason : DisconnectReason) → Keeps cap Always (disconnect M b reason i s)
    disconnect-Keeps true reason =
        and_then-Keeps cap (λ d t. d ≡ c) Always (remove M i s) _
          (remove-Keeps M steady cap i c s v e) (λ d t w same. reset_after-Keeps reason d t w)
    disconnect-Keeps false reason =
        let g = v.1.each i c e in
        rw e (
          (
            v.0,
            set-IsValid cap s.connections v.1 i c _ e
                (record { valid = g.valid; full_size = g.full_size; announced = g.announced })
                (refl, refl, refl),
          ),
          tt,
        )

    react-Keeps : (t : VsockEventType) → Keeps cap Always (react M t i event s)
    unfolding react
    react-Keeps connection_request =
        answer_request-Keeps (contains s.listening_ports event.destination.port)
    react-Keeps connected = (v, tt)
    react-Keeps (disconnected reason) = rw e (
        and_then-Keeps cap Always Always (disconnect M (RingBuffer.is_empty c.buffer) reason i s) _
          (disconnect-Keeps (RingBuffer.is_empty c.buffer) reason) (λ a t w q. (w, tt)))
    react-Keeps (received n) = (v, tt)
    react-Keeps credit_request_event =
        and_then-Keeps cap Always Always (on_connection M i (update_credit M) s) _
          (on_connection-Keeps M steady cap i c (update_credit M) s v e
            (update_credit-KeptRun M steady))
          (λ a t w q. (w, tt))
    react-Keeps credit_update_event = (v, tt)

  react_to-Keeps :
      (result : Option VsockEvent) (s : Common M.State)
      → Valid cap s
      → There M steady cap result s.connections
      → Keeps cap Always (react_to M result s)
  unfolding get_connection_for_event
  react_to-Keeps none s v h = (v, tt)
  react_to-Keeps (some event) s v (i, is) =
      let (c, e, m) = position-some _ s.connections i is in
      rw is (react-Keeps i event c s v e event.event_type)

  pub poll-Keeps : (s : Common M.State) → Valid cap s → Keeps cap Always (poll M s)
  unfolding poll
  poll-Keeps s v =
      and_then-Keeps cap (Delivered M steady cap) Always (driver_poll M (handle M) s) (react_to M)
        (driver_poll-Keeps M steady cap (handle M) (There M steady cap) s v (λ cs. tt)
          (handle-Keeps M steady cap memory))
        (λ result t w there. react_to-Keeps result t w there)

  -- A connection that is offered is well formed.
  abbrev pub GoodOffer : Option (Offer M) → List Connection → Type 0
  GoodOffer none cs = Unit {0}
  GoodOffer (some (event, none)) cs = Unit {0}
  GoodOffer (some (event, some c)) cs = Good cap c

  abbrev Offered : Option (Offer M) → Common M.State → Type 0
  Offered o t = GoodOffer o t.connections

  offer-Good :
      (b : Bool) (event : VsockEvent) (s : Common M.State)
      → Valid cap s
      → Keeps cap Offered (offer M b event s)
  unfolding new_connection
  offer-Good false event s v = (v, tt)
  offer-Good true event s (p, v) = rw (memory s.per_connection_buffer_capacity s.driver) (
    (p, v),
    updated-Good cap event _ (
        fresh_connection-Good cap s.per_connection_buffer_capacity event.source
          event.destination.port v.room p),
  )

  delivered-Offered :
      (i : ℕ) (event : VsockEvent) (body : List ℕ) (c : Connection) (s : Common M.State)
      → Valid cap s
      → get_elem? s.connections i ≡ some c
      → matches_connection event c.info M.local_cid ≡ true
      → Keeps cap Offered (and_then (deliver M i event body s) (without_offer M))
  delivered-Offered i event body c s v e m =
      and_then-Keeps cap (Delivered M steady cap) Offered (deliver M i event body s)
        (without_offer M) (deliver-Keeps M steady cap i event body c s v e m) plain
    where
      plain :
          (r : Option VsockEvent) (t : Common M.State)
          → Valid cap t
          → Delivered M steady cap r t
          → Keeps cap Offered (without_offer M r t)
      plain none t w q = (w, tt)
      plain (some event') t w q = (w, tt)

  handle_known-Keeps :
      (t : VsockEventType) (i : ℕ) (event : VsockEvent) (body : List ℕ) (c : Connection)
      (s : Common M.State)
      → Valid cap s
      → get_elem? s.connections i ≡ some c
      → matches_connection event c.info M.local_cid ≡ true
      → Keeps cap Offered (handle_known M t i event body s)
  handle_known-Keeps (disconnected reset) i event body c s v e m =
      and_then-Keeps cap (λ d t. d ≡ c) Offered (remove M i s) _
        (remove-Keeps M steady cap i c s v e) (λ d t w same. (w, tt))
  handle_known-Keeps (disconnected shutdown_reason) i event body c s v e m =
      delivered-Offered i event body c s v e m
  handle_known-Keeps connection_request i event body c s v e m =
      delivered-Offered i event body c s v e m
  handle_known-Keeps connected i event body c s v e m = delivered-Offered i event body c s v e m
  handle_known-Keeps (received n) i event body c s v e m = delivered-Offered i event body c s v e m
  handle_known-Keeps credit_request_event i event body c s v e m =
      delivered-Offered i event body c s v e m
  handle_known-Keeps credit_update_event i event body c s v e m =
      delivered-Offered i event body c s v e m

  known-Keeps :
      (event : VsockEvent) (body : List ℕ) (s : Common M.State)
      → Valid cap s
      → Keeps cap Offered (
          handle_direct_for M
            (get_connection_for_event s.connections event M.local_cid)
            event
            body
            s)
  unfolding get_connection_for_event
  known-Keeps event body s v = kept (get_connection_for_event s.connections event M.local_cid) refl
    where
      kept :
          (r : Option ℕ)
          → get_connection_for_event s.connections event M.local_cid ≡ r
          → Keeps cap Offered (handle_direct_for M r event body s)
      kept none h = (v, tt)
      kept (some i) h =
          let (c, e, m) = position-some _ s.connections i h in
          handle_known-Keeps event.event_type i event body c s v e m

  handle_direct_type-Keeps :
      (t : VsockEventType) (event : VsockEvent) (body : List ℕ) (s : Common M.State)
      → Valid cap s
      → Keeps cap Offered (handle_direct_type M t event body s)
  handle_direct_type-Keeps connection_request event body s v =
      offer-Good (contains s.listening_ports event.destination.port) event s v
  handle_direct_type-Keeps connected event body s v = known-Keeps event body s v
  handle_direct_type-Keeps (disconnected reason) event body s v = known-Keeps event body s v
  handle_direct_type-Keeps (received n) event body s v = known-Keeps event body s v
  handle_direct_type-Keeps credit_request_event event body s v = known-Keeps event body s v
  handle_direct_type-Keeps credit_update_event event body s v = known-Keeps event body s v

  handle_direct-Keeps :
      (event : VsockEvent) (body : List ℕ) (s : Common M.State)
      → Valid cap s
      → Keeps cap Offered (handle_direct M event body s)
  unfolding handle_direct
  handle_direct-Keeps event body s v = elim (Bool-cases (event.destination.cid == M.local_cid)) [
    | inl ours ↦ rw ours (handle_direct_type-Keeps event.event_type event body s v)
    | inr other ↦ rw other (v, tt)
  ]

  -- On a driver whose queues do not panic, with enough memory and well-formed connections,
  -- `poll_direct` does not panic and leaves them well formed, and a connection that it offers is
  -- well formed.
  pub poll_direct-Keeps : (s : Common M.State) → Valid cap s → Keeps cap Offered (poll_direct M s)
  unfolding poll_direct
  poll_direct-Keeps s v =
      driver_poll-Keeps M steady cap (handle_direct M) GoodOffer s v (λ cs. tt) handle_direct-Keeps
