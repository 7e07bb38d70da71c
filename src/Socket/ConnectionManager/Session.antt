-- ===== src/Socket/ConnectionManager/Session.antt =====
-- A connection manager of src/device/socket/connectionmanager.rs from `new_with_capacity` on,
-- through any sequence of calls.
use virtio_drivers_and_devic.Prelude.{ℕ, ◌<◌, ◌≡◌, refl, Option, none, some, List, [], ◌∷◌}
use virtio_drivers_and_devic.Error.{Run, ok, err, panic}
use virtio_drivers_and_devic.Socket.Protocol.{VsockAddr}
use virtio_drivers_and_devic.Socket.Connection.{Manager}
use virtio_drivers_and_devic.Socket.ConnectionManager.{
  Common, new_with_capacity, listen, unlisten, send, send_credit, shutdown, close,
  recv_buffer_available_bytes, recv, connect,
}
use virtio_drivers_and_devic.Socket.ConnectionManager.Poll.{poll, poll_direct}
use virtio_drivers_and_devic.Socket.ConnectionManager.Valid.{IsValid, []-IsValid}
use virtio_drivers_and_devic.Socket.ConnectionManager.Sound.{
  Steady, HasMemory, Valid, Keeps, Always,
}
use virtio_drivers_and_devic.Socket.ConnectionManager.Operations.{
  send-Keeps, send_credit-Keeps, shutdown-Keeps, close-Keeps, recv_buffer_available_bytes-Keeps,
  recv-Keeps, connect-Keeps,
}
use virtio_drivers_and_devic.Socket.ConnectionManager.Reacting.{poll-Keeps, poll_direct-Keeps}

-- the calls of a client, but for `accept`
pub data Op : Type 0 where
  listen_op unlisten_op : ℕ → Op
  send_op : VsockAddr → ℕ → List ℕ → Op
  credit_op shutdown_op close_op available_op connect_op : VsockAddr → ℕ → Op
  recv_op : VsockAddr → ℕ → List ℕ → Op
  poll_op poll_direct_op : Op

module _ (M : Manager) where
  -- the state after a call, whatever it returned, unless it panicked
  abbrev pub left {ℓ} : {A : Type ℓ} → Run (Common M.State) A → Option (Common M.State)
  left (ok a s) = some s
  left (err e s) = some s
  left panic = none

  abbrev pub step : Op → Common M.State → Option (Common M.State)
  step (listen_op port) s = left (listen M port s)
  step (unlisten_op port) s = left (unlisten M port s)
  step (send_op peer port buffer) s = left (send M peer port buffer s)
  step (credit_op peer port) s = left (send_credit M peer port s)
  step (shutdown_op peer port) s = left (shutdown M peer port s)
  step (close_op peer port) s = left (close M peer port s)
  step (available_op peer port) s = left (recv_buffer_available_bytes M peer port s)
  step (connect_op peer port) s = left (connect M peer port s)
  step (recv_op peer port buffer) s = left (recv M peer port buffer s)
  step poll_op s = left (poll M s)
  step poll_direct_op s = left (poll_direct M s)

  abbrev pub step_on : Op → Option (Common M.State) → Option (Common M.State)
  step_on op none = none
  step_on op (some s) = step op s

  abbrev pub run_from : List Op → Option (Common M.State) → Option (Common M.State)
  run_from [] r = r
  run_from (op ∷ ops) r = run_from ops (step_on op r)

  -- the state that is left
  abbrev pub Left : ℕ → Option (Common M.State) → Type 0
  Left cap r = (s : Common M.State) × (r ≡ some s) × Valid cap s

  left-Keeps {ℓ} :
      {A : Type ℓ} (cap : ℕ) (Q : A → Common M.State → Type 0) (r : Run (Common M.State) A)
      → Keeps cap Q r
      → Left cap (left r)
  left-Keeps cap Q (ok a s) (v, q) = (s, refl, v)
  left-Keeps cap Q (err e s) v = (s, refl, v)
  left-Keeps cap Q panic n = absurd n

  module _ (steady : Steady M) (memory : HasMemory M) (cap : ℕ) where
    step-Valid : (op : Op) (s : Common M.State) → Valid cap s → Left cap (step op s)
    unfolding listen unlisten
    step-Valid (listen_op port) s v = (_, refl, v)
    step-Valid (unlisten_op port) s v = (_, refl, v)
    step-Valid (send_op peer port buffer) s v =
        left-Keeps cap Always _ (send-Keeps M steady cap peer port buffer s v)
    step-Valid (credit_op peer port) s v =
        left-Keeps cap Always _ (send_credit-Keeps M steady cap peer port s v)
    step-Valid (shutdown_op peer port) s v =
        left-Keeps cap Always _ (shutdown-Keeps M steady cap peer port s v)
    step-Valid (close_op peer port) s v =
        left-Keeps cap Always _ (close-Keeps M steady cap peer port s v)
    step-Valid (available_op peer port) s v =
        left-Keeps cap Always _ (recv_buffer_available_bytes-Keeps M steady cap peer port s v)
    step-Valid (connect_op peer port) s v =
        left-Keeps cap Always _ (connect-Keeps M steady cap memory peer port s v)
    step-Valid (recv_op peer port buffer) s v =
        left-Keeps cap Always _ (recv-Keeps M steady cap peer port buffer s v)
    step-Valid poll_op s v = left-Keeps cap Always _ (poll-Keeps M steady memory cap s v)
    step-Valid poll_direct_op s v = left-Keeps cap _ _ (poll_direct-Keeps M steady memory cap s v)

    run_from-Valid :
        (ops : List Op) (s : Common M.State) → Valid cap s → Left cap (run_from ops (some s))
    run_from-Valid [] s v = (s, refl, v)
    run_from-Valid (op ∷ ops) s v =
        let (t, e, w) = step-Valid op s v in rw e (run_from-Valid ops t w)

-- A manager of nonzero capacity, on a driver whose queues do not panic and with enough memory, does
-- not panic in any sequence of calls but for `accept`, whether they return or fail: no `unwrap` of
-- a connection fails, no index is out of range, and no ring buffer is used beyond its end. It has
-- well-formed connections at the end, of which no two have the same ends.
pub run_from-new_with_capacity :
    (M : Manager) (ops : List Op) (driver : M.State) (capacity : ℕ)
    → Steady M
    → HasMemory M
    → 0 < capacity
    → (s : Common M.State) × (run_from M ops (some (new_with_capacity M driver capacity)) ≡ some s)
      × (s.per_connection_buffer_capacity ≡ capacity)
      × IsValid capacity s.connections
unfolding new_with_capacity
run_from-new_with_capacity M ops driver capacity steady memory h =
    let (s, e, (p, v)) =
      run_from-Valid M steady memory capacity ops (new_with_capacity M driver capacity)
        (refl, []-IsValid capacity h) in
    (s, e, p, v)
