-- ===== src/Socket/ConnectionManager/Sound.antt =====
-- What keeps the connections of src/device/socket/connectionmanager.rs well formed: the steps that
-- its operations are put together from.
use virtio_drivers_and_devic.Prelude.{
  ℕ, ◌≡◌, leb, inl, inr, refl, ◌∙◌, true, Bool-cases, some, List, [], length, get_elem?, set,
}
use virtio_drivers_and_devic.Error.{Cmd, Run, Error, ok, err, panic, and_then}
use virtio_drivers_and_devic.Socket.Protocol.{
  VirtioVsockHdr, VirtioVsockOp, credit_request, credit_update, request, response, shutdown, rst,
}
use virtio_drivers_and_devic.Socket.Event.{ConnectionInfo, peer_free}
use virtio_drivers_and_devic.Socket.RingBuffer.{RingBuffer}
use virtio_drivers_and_devic.Socket.RingBuffer.Contents
use virtio_drivers_and_devic.Socket.Connection.{
  Manager, Shared, keep_info, send_op, send as driver_send, check_peer_buffer_is_sufficient,
  request_credit, connect_to, accept, update_credit, shut_down, shutdown_with_hints, force_close,
}
use virtio_drivers_and_devic.Socket.ConnectionManager.{
  Connection, Common, on_driver, keep_rest, store_info, on_connection, drop_info, on_removed,
  remove, store_buffer,
}
use virtio_drivers_and_devic.Socket.ConnectionManager.Valid.{
  Good, SameEnds, IsValid, set-IsValid, removal-IsValid,
}

-- a call that returns or fails, but does not panic
abbrev pub NoPanic {ℓ κ} : {W : Type ℓ} {A : Type κ} → Run W A → Type 0
NoPanic (ok a w) = Unit {0}
NoPanic (err e w) = Unit {0}
NoPanic panic = ⊥

-- What is asked of a driver: its queues do not make it panic.
pub record Steady (M : Manager) : Type 0 where
  pub sends :
      (h : VirtioVsockHdr) (body : List ℕ) (s : M.State) → NoPanic (M.send_packet_to_queue h body s)
  pub begins : (s : M.State) → NoPanic (M.begin_poll s)
  pub ends : (s : M.State) → NoPanic (M.end_poll s)

-- the allocator does not run out of memory
abbrev pub HasMemory : Manager → Type 0
HasMemory M = (n : ℕ) (s : M.State) → M.has_memory n s ≡ true

-- what no call of a driver changes in the info of a connection
abbrev pub SameKept : ConnectionInfo → ConnectionInfo → Type 0
SameKept a b = SameEnds a b × (a.buf_alloc ≡ b.buf_alloc)

module _ {S : Type 0} where
  abbrev pub KeptRun {ℓ} : {A : Type ℓ} → ConnectionInfo → Run (Shared S) A → Type 0
  KeptRun info (ok a h) = SameKept h.info info
  KeptRun info (err e h) = SameKept h.info info
  KeptRun info panic = ⊥

  -- the connections are well formed, for this capacity
  abbrev pub Valid : ℕ → Common S → Type 0
  Valid cap s = (s.per_connection_buffer_capacity ≡ cap) × IsValid cap s.connections

  -- a call that does not panic and leaves the connections well formed, and what it returns then
  abbrev pub Keeps {ℓ} : {A : Type ℓ} → ℕ → (A → Common S → Type 0) → Run (Common S) A → Type 0
  Keeps cap Q (ok a s) = Valid cap s × Q a s
  Keeps cap Q (err e s) = Valid cap s
  Keeps cap Q panic = ⊥

  abbrev pub Always {ℓ} : {A : Type ℓ} → A → Common S → Type 0
  Always a s = Unit {0}

  pub and_then-Keeps {ℓ κ} :
      {A : Type ℓ} {B : Type κ} (cap : ℕ) (Q : A → Common S → Type 0) (R : B → Common S → Type 0)
      (r : Run (Common S) A) (k : A → Common S → Run (Common S) B)
      → Keeps cap Q r
      → ((a : A) (s : Common S) → Valid cap s → Q a s → Keeps cap R (k a s))
      → Keeps cap R (and_then r k)
  and_then-Keeps cap Q R (ok a s) k (v, q) h = h a s v q
  and_then-Keeps cap Q R (err e s) k v h = v
  and_then-Keeps cap Q R panic k n h = n

  pub weaken-Keeps {ℓ} :
      {A : Type ℓ} (cap : ℕ) (Q R : A → Common S → Type 0) (r : Run (Common S) A)
      → Keeps cap Q r
      → ((a : A) (s : Common S) → Q a s → R a s)
      → Keeps cap R r
  weaken-Keeps cap Q R (ok a s) (v, q) h = (v, h a s q)
  weaken-Keeps cap Q R (err e s) v h = v
  weaken-Keeps cap Q R panic n h = n

refl_Kept : (a : ConnectionInfo) → SameKept a a
refl_Kept a = ((refl, refl, refl), refl)

-- one that a connection with another info keeps the shape of
changed-Good :
    (cap : ℕ) (c : Connection) (info : ConnectionInfo)
    → Good cap c
    → SameKept info c.info
    → Good cap (record c { info = info })
changed-Good cap c info g (e, b) = record {
  valid = g.valid;
  full_size = g.full_size;
  announced = b ∙ g.announced;
}

module _ (M : Manager) (steady : Steady M) where
  keep_info-KeptRun :
      (info here : ConnectionInfo) (r : Run M.State (Unit {0}))
      → SameKept here info
      → NoPanic r
      → KeptRun info (keep_info M here r)
  keep_info-KeptRun info here (ok a s) k h = k
  keep_info-KeptRun info here (err e s) k h = k
  keep_info-KeptRun info here panic k h = h

  send_op-KeptRun :
      (op : VirtioVsockOp) (flags : ℕ) (c : Shared M.State) → KeptRun c.info (send_op M op flags c)
  send_op-KeptRun op flags c =
      keep_info-KeptRun c.info c.info (M.send_packet_to_queue _ [] c.state) (refl_Kept c.info)
        (steady.sends _ [] c.state)

  pub connect_to-KeptRun : (c : Shared M.State) → KeptRun c.info (connect_to M c)
  unfolding connect_to
  connect_to-KeptRun = send_op-KeptRun request 0

  pub accept-KeptRun : (c : Shared M.State) → KeptRun c.info (accept M c)
  unfolding accept
  accept-KeptRun = send_op-KeptRun response 0

  pub update_credit-KeptRun : (c : Shared M.State) → KeptRun c.info (update_credit M c)
  unfolding update_credit
  update_credit-KeptRun = send_op-KeptRun credit_update 0

  pub shut_down-KeptRun : (c : Shared M.State) → KeptRun c.info (shut_down M c)
  unfolding shut_down shutdown_with_hints
  shut_down-KeptRun = send_op-KeptRun shutdown 3

  pub force_close-KeptRun : (c : Shared M.State) → KeptRun c.info (force_close M c)
  unfolding force_close
  force_close-KeptRun = send_op-KeptRun rst 0

  then_fails :
      (info : ConnectionInfo) (e : Error) (r : Run (Shared M.State) (Unit {0}))
      → KeptRun info r
      → KeptRun {A = Unit {0}} info (and_then r (λ _. err e))
  then_fails info e (ok a s) h = h
  then_fails info e (err e' s) h = h
  then_fails info e panic h = h

  then_sends :
      (info : ConnectionInfo) (r : Run (Shared M.State) (Unit {0}))
      (k : Unit {0} → Shared M.State → Run (Shared M.State) (Unit {0}))
      → KeptRun info r
      → ((c : Shared M.State) → SameKept c.info info → KeptRun info (k tt c))
      → KeptRun info (and_then r k)
  then_sends info (ok a s) k h g = g s h
  then_sends info (err e s) k h g = h
  then_sends info panic k h g = h

  checked-KeptRun :
      (n : ℕ) (c : Shared M.State) → KeptRun c.info (check_peer_buffer_is_sufficient M n c)
  unfolding check_peer_buffer_is_sufficient request_credit
  checked-KeptRun n c = elim (Bool-cases (leb n (peer_free c.info))) [
    | inl fits ↦ rw fits (refl_Kept c.info)
    | inr full ↦ elim (Bool-cases c.info.has_pending_credit_request) [
      | inl pending ↦ rw (full, pending) (refl_Kept c.info)
      | inr fresh ↦
          rw (full, fresh)
            (then_fails c.info _
              (send_op M credit_request 0
                (record c { info = record c.info { has_pending_credit_request = true } }))
              (send_op-KeptRun credit_request 0
                (record c { info = record c.info { has_pending_credit_request = true } })))
    ]
  ]

  pub send-KeptRun :
      (buffer : List ℕ) (c : Shared M.State) → KeptRun c.info (driver_send M buffer c)
  unfolding driver_send
  send-KeptRun buffer c =
      then_sends c.info (check_peer_buffer_is_sufficient M (length buffer) c) _
        (checked-KeptRun (length buffer) c)
        (λ d k.
          keep_info-KeptRun c.info _ (M.send_packet_to_queue _ buffer d.state) k
            (steady.sends _ buffer d.state))

  stored-Keeps :
      (cap i : ℕ) (c : Connection) (s : Common M.State) (r : Run (Shared M.State) (Unit {0}))
      → Valid cap s
      → get_elem? s.connections i ≡ some c
      → KeptRun c.info r
      → Keeps cap Always (store_info M i c s r)
  stored-Keeps cap i c s (ok a h) (p, v) e (k, b) = (
    (
      p,
      set-IsValid cap s.connections v i c (record c { info = h.info }) e
          (changed-Good cap c h.info (v.each i c e) (k, b)) k,
    ),
    tt,
  )
  stored-Keeps cap i c s (err x h) (p, v) e (k, b) = (
    p,
    set-IsValid cap s.connections v i c (record c { info = h.info }) e
        (changed-Good cap c h.info (v.each i c e) (k, b)) k,
  )
  stored-Keeps cap i c s panic v e k = k

  -- A call of the driver on a connection that is there.
  pub on_connection-Keeps :
      (cap i : ℕ) (c : Connection) (op : Cmd (Shared M.State) (Unit {0})) (s : Common M.State)
      → Valid cap s
      → get_elem? s.connections i ≡ some c
      → ((h : Shared M.State) → KeptRun h.info (op h))
      → Keeps cap Always (on_connection M i op s)
  unfolding on_connection
  on_connection-Keeps cap i c op s v e k = rw e (
      stored-Keeps cap i c s (op (record { info = c.info; state = s.driver })) v e
        (k (record { info = c.info; state = s.driver })))

  dropped-Keeps :
      (cap : ℕ) (info : ConnectionInfo) (s : Common M.State) (r : Run (Shared M.State) (Unit {0}))
      → Valid cap s
      → KeptRun info r
      → Keeps cap Always (drop_info M s r)
  dropped-Keeps cap info s (ok a h) v k = (v, tt)
  dropped-Keeps cap info s (err x h) v k = v
  dropped-Keeps cap info s panic v k = k

  -- A call of the driver on a connection that is in no list any more.
  pub on_removed-Keeps :
      (cap : ℕ) (c : Connection) (op : Cmd (Shared M.State) (Unit {0})) (s : Common M.State)
      → Valid cap s
      → ((h : Shared M.State) → KeptRun h.info (op h))
      → Keeps cap Always (on_removed M c op s)
  unfolding on_removed
  on_removed-Keeps cap c op s v k =
      dropped-Keeps cap c.info s (op (record { info = c.info; state = s.driver })) v
        (k (record { info = c.info; state = s.driver }))

  -- The removal of a connection that is there.
  pub remove-Keeps :
      (cap i : ℕ) (c : Connection) (s : Common M.State)
      → Valid cap s
      → get_elem? s.connections i ≡ some c
      → Keeps cap (λ d t. d ≡ c) (remove M i s)
  unfolding remove
  remove-Keeps cap i c s (p, v) e =
      let (rest, is, valid) = removal-IsValid cap s.connections v i c e in
      rw (e, is) ((p, valid), refl)

  -- A call of the driver that concerns no connection.
  pub on_driver-Keeps {ℓ} :
      {A : Type ℓ} (cap : ℕ) (op : Cmd M.State A) (Q : Common M.State → Type 0) (s : Common M.State)
      → Valid cap s
      → NoPanic (op s.driver)
      → ((d : M.State) → Q (record s { driver = d }))
      → Keeps cap (λ a t. Q t) (on_driver M op s)
  on_driver-Keeps {A = A} cap op Q s v n q = kept (op s.driver) n
    where
      kept : (r : Run M.State A) → NoPanic r → Keeps cap (λ a t. Q t) (keep_rest M s r)
      kept (ok a d) h = (v, q d)
      kept (err e d) h = v
      kept panic h = h

  -- `store_buffer` after a call that returns.
  pub store_buffer-Keeps :
      {A : Type 0} (cap i : ℕ) (c : Connection) (s : Common M.State) (r : Run RingBuffer A) (a : A)
      (b : RingBuffer)
      → Valid cap s
      → get_elem? s.connections i ≡ some c
      → r ≡ ok a b
      → Contents.IsValid b
      → length b.buffer ≡ length c.buffer.buffer
      → Keeps cap
          (λ x t. (x ≡ a) × (t.connections ≡ set s.connections i (record c { buffer = b })))
          (store_buffer M i c s r)
  store_buffer-Keeps cap i c s r a b (p, v) e is g l = rw is (
    (
      p,
      set-IsValid cap s.connections v i c (record c { buffer = b }) e
          (record {
            valid = g;
            full_size = l ∙ (v.each i c e).full_size;
            announced = (v.each i c e).announced;
          })
          (refl, refl, refl),
    ),
    (refl, refl),
  )
