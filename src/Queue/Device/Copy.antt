-- ===== src/Queue/Device/Copy.antt =====
-- `poll` and `wait_pop_add_notify` of `DeviceVirtQueue` in src/queue.rs, which copy the bytes of a
-- request.
pub mod Served
use virtio_drivers_and_devic.Prelude.{
  ℕ, ◌+◌, leb, if◌then◌else◌, Bool, true, false, not, Option, some, none, List, [], ◌∷◌, ◌++◌,
  length,
}
use virtio_drivers_and_devic.Error.{
  Cmd, Run, ok, err, panic, not_ready, unsupported, ◌>>=◌, ◌>>◌, get, put, pure, fail, assert,
  unwrap,
}
use virtio_drivers_and_devic.Hal.{DeviceHal, Buffer}
use virtio_drivers_and_devic.Queue.Device.{
  DescriptorBuffers, Device, can_pop, should_notify, pop_avail, add_used,
}
use virtio_drivers_and_devic.Queue.Device.Open.{DeviceTransport}

-- a device's queue, with the state of its transport
pub record Serving (S T : Type 0) : Type 0 where
  pub device : Device S
  pub transport : T

abbrev pub is_empty : List Buffer → Bool
is_empty [] = true
is_empty (b ∷ bs) = false

module _ (H : DeviceHal) (T : DeviceTransport) where
  abbrev pub World : Type 0
  World = Serving H.State T.State

  abbrev pub set_device {ℓ} : {A : Type ℓ} → World → Run (Device H.State) A → Run World A
  set_device w (ok a d) = ok a (record w { device = d })
  set_device w (err e d) = err e (record w { device = d })
  set_device w panic = panic

  abbrev pub on_device {ℓ} : {A : Type ℓ} → Cmd (Device H.State) A → Cmd World A
  on_device op w = set_device w (op w.device)

  -- `if self.should_notify() { transport.notify(…) }`
  abbrev pub notify_driver : Cmd World (Unit {0})
  notify_driver = do
    w ← get
    put (
        if should_notify w.device.queue
        then record w { transport = T.notify w.device.queue.queue_idx w.transport }
        else w)

  -- the chain is given back
  abbrev pub give_back : ℕ → ℕ → Cmd World (Unit {0})
  give_back head len = do on_device (add_used H head len); notify_driver

  -- the bytes of the buffers, one after the other
  abbrev pub read_all : List Buffer → H.State → List ℕ
  read_all [] s = []
  read_all (b ∷ bs) s = H.read b s ++ read_all bs s

  -- the handler's answer, after the chain has been given back
  abbrev pub reply {ℓ} :
      {W A : Type ℓ} → Run W (Option A) → Run World (Unit {0}) → Run (World × W) (Option (Option A))
  reply (ok a c) (ok u w) = ok (some a) (w, c)
  reply (err e c) (ok u w) = err e (w, c)
  reply (ok a c) (err e w) = err e (w, c)
  reply (err x c) (err e w) = err e (w, c)
  reply panic r = panic
  reply (ok a c) panic = panic
  reply (err e c) panic = panic

  -- the rest of `poll`, with the chain
  abbrev pub handle_chain {ℓ} :
      {W A : Type ℓ}
      → (List ℕ → Cmd W (Option A))
      → W
      → DescriptorBuffers
      → World
      → Run (World × W) (Option (Option A))
  handle_chain handler c popped w =
      if not (is_empty popped.write_buffers)
      then err unsupported (w, c)
      else reply (handler (read_all popped.read_buffers w.device.hal) c) (give_back popped.head 0 w)

  abbrev pub handle_popped {ℓ} :
      {W A : Type ℓ}
      → (List ℕ → Cmd W (Option A))
      → W
      → Run World (Option (Option DescriptorBuffers))
      → Run (World × W) (Option (Option A))
  handle_popped handler c (ok none w) = ok none (w, c)
  handle_popped handler c (ok (some none) w) = ok (some none) (w, c)
  handle_popped handler c (ok (some (some popped)) w) = handle_chain handler c popped w
  handle_popped handler c (err e w) = err e (w, c)
  handle_popped handler c panic = panic

  -- `poll`, for chains of at most `fuel` descriptors: the outer `none` if this one goes on
  unfoldable pub poll {ℓ} :
      {W A : Type ℓ} → ℕ → (List ℕ → Cmd W (Option A)) → Cmd (World × W) (Option (Option A))
  poll fuel handler (w, c) = handle_popped handler c (on_device (pop_avail H fuel) w)

  -- the loop of `wait_pop_add_notify`: the number of bytes copied
  unfoldable pub copy_in : Buffer → ℕ → List (List ℕ) → Cmd World ℕ
  copy_in out_buf copied [] = pure copied
  copy_in out_buf copied (in_buf ∷ inputs) = do
    assert (leb (copied + length in_buf) out_buf.len)
    w ← get
    put (record w {
      device = record w.device { hal = H.write (out_buf.ptr + copied) in_buf w.device.hal };
    })
    copy_in out_buf (copied + length in_buf) inputs

  -- what it does with a chain: a chain without a write buffer, or with a read buffer, is refused
  abbrev pub fill_chain : List (List ℕ) → List Buffer → List Buffer → ℕ → Cmd World (Unit {0})
  fill_chain inputs reads [] head = fail not_ready
  fill_chain inputs (r ∷ rs) (out_buf ∷ writes) head = fail unsupported
  fill_chain inputs [] (out_buf ∷ writes) head = do
    head_len ← copy_in out_buf 0 inputs
    give_back head head_len

  abbrev pub fill_popped :
      List (List ℕ) → Option (Option DescriptorBuffers) → Cmd World (Option (Unit {0}))
  fill_popped inputs none = pure none
  fill_popped inputs (some popped) = do
    chain ← unwrap popped
    fill_chain inputs chain.read_buffers chain.write_buffers chain.head
    pure (some tt)

  -- `wait_pop_add_notify`, after the wait for a chain: `none` if there is none yet, or if it has
  -- more than `fuel` descriptors
  unfoldable pub wait_pop_add_notify : ℕ → List (List ℕ) → Cmd World (Option (Unit {0}))
  unfolding copy_in
  wait_pop_add_notify fuel inputs = do
    w ← get
    if not (can_pop w.device.queue)
        then pure none
        else do popped ← on_device (pop_avail H fuel); fill_popped inputs popped
