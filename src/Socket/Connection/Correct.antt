-- ===== src/Socket/Connection/Correct.antt =====
-- The flow control of `send` in src/device/socket/vsock.rs.
use virtio_drivers_and_devic.Prelude.{
  ℕ, ◌+◌, ◌-◌, ◌%◌, ◌^◌, ◌≤◌, ◌<◌, ◌≡◌, ◌⊎◌, inl, inr, refl, arith, Bool-cases, leb, true, false,
  List, length,
}
use virtio_drivers_and_devic.Error.{
  Run, Error, ok, err, and_then, panic, socket_device_error, insufficient_buffer_space_in_peer,
}
use virtio_drivers_and_devic.Socket.Protocol.{rw_op, from_op}
use virtio_drivers_and_devic.Socket.Event.{ConnectionInfo, peer_free, new_header}
use virtio_drivers_and_devic.Socket.Event.Correct.{peer_free_exact}
use virtio_drivers_and_devic.Socket.Connection.{
  Manager, Shared, send, send_packet, check_peer_buffer_is_sufficient, request_credit,
}

-- What is under way: of the bytes sent on the connection in all, the peer has told that it has
-- forwarded some, and the others are within the buffer that it has allocated.
pub record UnderWay (info : ConnectionInfo) (sent forwarded : ℕ) : Type 0 where
  pub counted : info.tx_cnt ≡ sent % 2 ^ 32
  pub told : info.peer_fwd_cnt ≡ forwarded % 2 ^ 32
  pub order : forwarded ≤ sent
  pub within : sent - forwarded ≤ info.peer_buf_alloc
  pub small : info.peer_buf_alloc < 2 ^ 32

-- What fails at its end is not gone on with.
fails_early {ℓ κ μ ν} :
    {W : Type ℓ} {A : Type κ} {B : Type μ} {C : Type ν} (e : Error) (r : Run W A)
    (k : B → W → Run W C)
    → and_then (and_then r (λ _. err e)) k ≡ and_then r (λ _. err e)
fails_early e (ok a w) k = refl
fails_early e (err e' w) k = refl
fails_early e panic k = refl

-- the info after a data packet of `n` bytes
abbrev pub sent_info : ℕ → ConnectionInfo → ConnectionInfo
sent_info n info = record info { tx_cnt = (info.tx_cnt + n) % 2 ^ 32 }

module _ (M : Manager) where
  -- The two ways in which `send` can go on: if the peer has room for the buffer, one data packet is
  -- sent with its exact length, and what is under way stays within the peer's buffer. Otherwise the
  -- buffer is not sent: a credit request is, if none is pending, and if that succeeds the
  -- error says that the peer lacks room.
  abbrev pub SendOutcome :
      List ℕ → ℕ → ℕ → Shared M.State → Run (Shared M.State) (Unit {0}) → Type 0
  SendOutcome buffer sent forwarded c result =
      ((sent - forwarded + length buffer ≤ c.info.peer_buf_alloc)
        × UnderWay (sent_info (length buffer) c.info) (sent + length buffer) forwarded
        × (result
            ≡ send_packet M
                (record (new_header c.info M.local_cid) { op = from_op rw_op; len = length buffer })
                buffer (record c { info = sent_info (length buffer) c.info })))
      ⊎ ((c.info.peer_buf_alloc < sent - forwarded + length buffer)
          × (((c.info.has_pending_credit_request ≡ true)
                × (result ≡ err (socket_device_error insufficient_buffer_space_in_peer) c))
              ⊎ ((c.info.has_pending_credit_request ≡ false)
                  × (result
                      ≡ and_then
                          (request_credit M (record c {
                            info = record c.info { has_pending_credit_request = true };
                          }))
                          (λ _. err (socket_device_error insufficient_buffer_space_in_peer))))))

  -- On a connection whose bytes under way are within the peer's buffer, `send` goes on in one of
  -- the two ways of `SendOutcome`.
  pub send-SendOutcome :
      (buffer : List ℕ) (sent forwarded : ℕ) (c : Shared M.State)
      → UnderWay c.info sent forwarded
      → SendOutcome buffer sent forwarded c (send M buffer c)
  unfolding send check_peer_buffer_is_sufficient
  send-SendOutcome buffer sent forwarded c u =
      elim (Bool-cases (leb (length buffer) (peer_free c.info))) [
        | inl fits ↦
            let room = fits_room fits in
            inl (
              room,
              record {
                counted = omega (arith, u.counted);
                told = u.told;
                order = omega (arith, u.order);
                within = omega (arith, room, u.order);
                small = u.small;
              },
              rw (fits, short room) refl,
            )
        | inr full ↦ elim (Bool-cases c.info.has_pending_credit_request) [
          | inl pending ↦ inr (full_room full, inl (pending, rw (full, pending) refl))
          | inr none_pending ↦
              inr (full_room full, inr (none_pending, rw (full, none_pending) (fails_early _ _ _)))
        ]
      ]
    where
      free : peer_free c.info + (sent - forwarded) ≡ c.info.peer_buf_alloc
      free = peer_free_exact c.info sent forwarded u.counted u.told u.order u.within u.small

      fits_room :
          leb (length buffer) (peer_free c.info) ≡ true
          → sent - forwarded + length buffer ≤ c.info.peer_buf_alloc
      fits_room h = ground (arith, free)

      full_room :
          leb (length buffer) (peer_free c.info) ≡ false
          → c.info.peer_buf_alloc < sent - forwarded + length buffer
      full_room h = ground (arith, free)

      short :
          sent - forwarded + length buffer ≤ c.info.peer_buf_alloc
          → length buffer % 2 ^ 32 ≡ length buffer
      short h = omega (arith, u.small)
