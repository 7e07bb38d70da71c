-- ===== src/Socket/ConnectionManager/Closing.antt =====
-- Connections that src/device/socket/connectionmanager.rs closes are in no list any more.
use mathlib.Core.Path.{subst}
use virtio_drivers_and_devic.Prelude.{
  ℕ, ◌≡◌, refl, sym, ap, arith, Bool, true, false, Option, some, none, List, get_elem?, set,
}
use virtio_drivers_and_devic.Error.{Cmd, Run, ok, err, panic, and_then, ◌>>=◌}
use virtio_drivers_and_devic.Socket.Vec.{
  position, position-some, get_elem?-some_lt, get_elem?-set_same, position-is_some,
}
use virtio_drivers_and_devic.Socket.Protocol.{VirtioVsockHdr, VsockAddr, accepted}
use virtio_drivers_and_devic.Socket.Event.{
  ConnectionInfo, VsockEvent, connection_request, update_for_event, matches_connection, from_header,
}
use virtio_drivers_and_devic.Socket.Packet.{read_header_and_body}
use virtio_drivers_and_devic.Socket.Connection.{Manager, Shared, force_close}
use virtio_drivers_and_devic.Socket.ConnectionManager.{
  Connection, Common, has_ends, get_connection, get_connection_for_event, contains, find, drop_info,
  on_removed, remove, close,
}
use virtio_drivers_and_devic.Socket.ConnectionManager.Poll.{
  copy_data, deliver, handle, driver_poll, react, react_to, poll,
}
use virtio_drivers_and_devic.Socket.ConnectionManager.Valid.{
  SameEnds, IsValid, set-IsValid, removal-Apart,
}
use virtio_drivers_and_devic.Socket.ConnectionManager.Sound.{Steady, KeptRun, force_close-KeptRun}
use virtio_drivers_and_devic.Socket.ConnectionManager.Polling.{updated-Good, updated_matches}

-- a test that only connections with the same ends pass
abbrev EndsTest : (Connection → Bool) → Type 0
EndsTest p = (c d : Connection) → p c ≡ true → p d ≡ true → SameEnds d.info c.info

has_ends-EndsTest : (peer : VsockAddr) (port : ℕ) → EndsTest (has_ends peer port)
has_ends-EndsTest peer port c d h g = (ground arith, ground arith, ground arith)

matches-EndsTest :
    (event : VsockEvent) (cid : ℕ) → EndsTest (λ c. matches_connection event c.info cid)
unfolding matches_connection
matches-EndsTest event cid c d h g = (ground arith, ground arith, ground arith)

update-SameEnds :
    (event : VsockEvent) (info : ConnectionInfo) → SameEnds (update_for_event event info) info
unfolding update_for_event
update-SameEnds event info = (refl, refl, refl)

module _ {S : Type 0} where
  -- a call that did not panic and after which no connection passes the test
  abbrev pub Gone {ℓ} : {A : Type ℓ} → (Connection → Bool) → Run (Common S) A → Type 0
  Gone p (ok a s) = position p s.connections ≡ none
  Gone p (err e s) = position p s.connections ≡ none
  Gone p panic = ⊥

module _ (M : Manager) (steady : Steady M) where
  dropped-Gone :
      (p : Connection → Bool) (s : Common M.State) (info : ConnectionInfo)
      (r : Run (Shared M.State) (Unit {0}))
      → position p s.connections ≡ none
      → KeptRun info r
      → Gone p (drop_info M s r)
  dropped-Gone p s info (ok a h) e k = e
  dropped-Gone p s info (err x h) e k = e
  dropped-Gone p s info panic e k = k

  removed-Gone :
      (p : Connection → Bool) (i : ℕ) (c : Connection) (s : Common M.State)
      → EndsTest p
      → IsValid s.per_connection_buffer_capacity s.connections
      → get_elem? s.connections i ≡ some c
      → p c ≡ true
      → Gone p (and_then (remove M i s) (λ d. on_removed M d (force_close M)))
  unfolding remove on_removed
  removed-Gone p i c s test v e h =
      let (rest, is, apart) =
        removal-Apart s.per_connection_buffer_capacity s.connections v i c e in
      rw (e, is)
        (dropped-Gone p (record s { connections = rest }) c.info _ (none_left rest apart)
          (force_close-KeptRun M steady (record { info = c.info; state = s.driver })))
    where
      none_left :
          (rest : List Connection)
          → ((j : ℕ) (d : Connection) → get_elem? rest j ≡ some d → ¬ SameEnds d.info c.info)
          → position p rest ≡ none
      none_left rest apart = go (position p rest) refl
        where
          go : (r : Option ℕ) → position p rest ≡ r → position p rest ≡ none
          go none q = q
          go (some j) q =
              let (d, f, g) = position-some p rest j q in absurd (apart j d f (test c d h g))

  -- When `force_close` is called for a connection that is known, where the connections are well
  -- formed and the queues of the driver do not panic, it does not panic, and none with those ends
  -- is known afterwards, even if the driver could not send the packet.
  pub close-Gone :
      (i : ℕ) (peer : VsockAddr) (port : ℕ) (s : Common M.State)
      → IsValid s.per_connection_buffer_capacity s.connections
      → get_connection s.connections peer port ≡ some i
      → Gone (has_ends peer port) (close M peer port s)
  unfolding close find get_connection
  close-Gone i peer port s v found =
      let (c, e, h) = position-some (has_ends peer port) s.connections i found in
      rw found (removed-Gone (has_ends peer port) i c s (has_ends-EndsTest peer port) v e h)

  answered-Gone :
      (p : Connection → Bool) (r : Run (Common M.State) (Unit {0}))
      → Gone p r
      → Gone {A = Option VsockEvent} p (and_then r (λ _. ok none))
  answered-Gone p (ok a s) h = h
  answered-Gone p (err e s) h = h
  answered-Gone p panic h = h

  nested :
      {A B C : Type 0} (r : Run (Common M.State) A) (k : A → Cmd (Common M.State) B)
      (l : B → Cmd (Common M.State) C)
      → and_then (and_then r k) l ≡ and_then r (λ a. k a >>= l)
  nested (ok a s) k l = refl
  nested (err e s) k l = refl
  nested panic k l = refl

  -- what the handler leaves of a request for a connection that is known
  abbrev updated : ℕ → VsockEvent → Connection → Common M.State → Common M.State
  updated i event c s = record s {
    connections = set s.connections i (record c { info = update_for_event event c.info });
  }

  handle-known_request :
      (i : ℕ) (event : VsockEvent) (body : List ℕ) (c : Connection) (s : Common M.State)
      → get_connection_for_event s.connections event M.local_cid ≡ some i
      → get_elem? s.connections i ≡ some c
      → event.event_type ≡ connection_request
      → handle M event body s ≡ ok (some event) (updated i event c s)
  unfolding handle deliver
  handle-known_request i event body c s found e t =
      rw (found, e)
        (ap (λ ty. and_then (copy_data M i body ty (updated i event c s)) (λ _. ok (some event))) t)

  rejected-Gone :
      (p : Connection → Bool) (j : ℕ) (d : Connection) (event : VsockEvent) (s : Common M.State)
      → EndsTest p
      → IsValid s.per_connection_buffer_capacity s.connections
      → get_elem? s.connections j ≡ some d
      → p d ≡ true
      → contains s.listening_ports event.destination.port ≡ false
      → Gone p (react M connection_request j event s)
  unfolding react
  rejected-Gone p j d event s test v e h closed = rw closed (
      subst (λ r. Gone p r)
        (nested (remove M j s) (λ x. on_removed M x (force_close M)) (λ _. ok none))
        (answered-Gone p (and_then (remove M j s) (λ x. on_removed M x (force_close M)))
          (removed-Gone p j d s test v e h)))

  -- what the end of `poll` does with such a request, after the handler
  request_rejected-Gone :
      (i : ℕ) (event : VsockEvent) (c : Connection) (s : Common M.State)
      → IsValid s.per_connection_buffer_capacity s.connections
      → get_elem? s.connections i ≡ some c
      → matches_connection event c.info M.local_cid ≡ true
      → event.event_type ≡ connection_request
      → contains s.listening_ports event.destination.port ≡ false
      → Gone
          (λ x. matches_connection event x.info M.local_cid)
          (react_to M (some event) (updated i event c s))
  unfolding get_connection_for_event
  request_rejected-Gone i event c s v e m t closed =
      let p = λ (x : Connection). matches_connection event x.info M.local_cid in
      let c' = record c { info = update_for_event event c.info } in
      let cs = set s.connections i c' in
      let v' =
        set-IsValid s.per_connection_buffer_capacity s.connections v i c c' e
          (updated-Good s.per_connection_buffer_capacity event c (v.each i c e))
          (update-SameEnds event c.info) in
      let (j, k) =
        position-is_some p cs i c'
          (get_elem?-set_same s.connections i c' (get_elem?-some_lt s.connections i c e))
          (updated_matches event c.info M.local_cid m) in
      let (d, f, h) = position-some p cs j k in
      rw k (
        subst (λ ty. Gone p (react M ty j event (updated i event c s))) (sym t)
          (rejected-Gone p j d event (updated i event c s) (matches-EndsTest event M.local_cid) v' f
            h closed))

  -- Where the connections are well formed and the queues of the driver do not panic, a `poll` that
  -- gets a connection request for a connection that is known, on a port that is not listened on,
  -- and that can give the buffer of the packet back, does not ignore the request: it leaves no
  -- connection for that event.
  pub poll_known_request-Gone :
      (i : ℕ) (event : VsockEvent) (bytes body : List ℕ) (header : VirtioVsockHdr)
      (s : Common M.State) (d d' : M.State)
      → IsValid s.per_connection_buffer_capacity s.connections
      → M.begin_poll s.driver ≡ ok (some bytes) d
      → read_header_and_body bytes ≡ accepted (header, body)
      → from_header header ≡ accepted event
      → M.end_poll d ≡ ok tt d'
      → get_connection_for_event s.connections event M.local_cid ≡ some i
      → event.event_type ≡ connection_request
      → contains s.listening_ports event.destination.port ≡ false
      → Gone (λ c. matches_connection event c.info M.local_cid) (poll M s)
  unfolding get_connection_for_event poll driver_poll
  poll_known_request-Gone i event bytes body header s d d' v begins is_read is_event ends found t
        closed =
      let (c, e, m) =
        position-some (λ (x : Connection). matches_connection event x.info M.local_cid)
          s.connections i found in
      rw
        (
          begins,
          is_read,
          is_event,
          handle-known_request i event body c (record s { driver = d }) found e t,
          ends,
        )
        (request_rejected-Gone i event c (record s { driver = d' }) v e m t closed)
