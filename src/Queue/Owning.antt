-- ===== src/Queue/Owning.antt =====
-- `OwningQueue` of src/queue/owning.rs: a queue whose buffers all wait for the device to write
-- them.
pub mod Stocked
pub mod Correct
use virtio_drivers_and_devic.Prelude.{
  ℕ, zero, suc, ◌+◌, ◌==◌, leb, if◌then◌else◌, Bool, Option, none, some, List, [], ◌∷◌, ◌++◌,
  get_elem?,
}
use virtio_drivers_and_devic.Error.{
  Cmd, Run, ok, err, panic, wrong_token, ◌>>=◌, ◌>>◌, get, put, pure, fail, assert, unwrap,
}
use virtio_drivers_and_devic.Hal.{Hal, Buffer}
use virtio_drivers_and_devic.Transport.{Transport}
use virtio_drivers_and_devic.Queue.State.{Driver}
use virtio_drivers_and_devic.Queue.Add.{add}
use virtio_drivers_and_devic.Queue.Pop.{peek_used, pop_used, should_notify, set_dev_notify}

-- `OwningQueue`, with the states of the `Hal` and of the transport; a buffer is its address
pub record OwningQueue (S T : Type 0) : Type 0 where
  pub driver : Driver S
  pub transport : T
  pub buffers : List ℕ

module _ (H : Hal) (T : Transport) (buffer_size : ℕ) where
  abbrev pub Owning : Type 0
  Owning = OwningQueue H.State T.State

  -- the buffer at the given address
  abbrev pub whole : ℕ → Buffer
  whole ptr = record { ptr = ptr; len = buffer_size }

  -- a call of the queue
  abbrev pub set_driver {ℓ} : {A : Type ℓ} → Owning → Run (Driver H.State) A → Run Owning A
  set_driver w (ok a d) = ok a (record w { driver = d })
  set_driver w (err e d) = err e (record w { driver = d })
  set_driver w panic = panic

  abbrev pub on_queue {ℓ} : {A : Type ℓ} → Cmd (Driver H.State) A → Cmd Owning A
  on_queue op w = set_driver w (op w.driver)

  -- a box for a buffer, from the allocator
  abbrev pub new_box : Cmd (Driver H.State) ℕ
  new_box = do
    d ← get
    let (block, s) = H.alloc buffer_size d.hal
    put (record d { hal = s })
    unwrap block

  -- the loop of `new`, from the buffer `i` on
  unfoldable pub new_loop : ℕ → ℕ → List ℕ → Cmd (Driver H.State) (List ℕ)
  new_loop i zero buffers = pure buffers
  new_loop i (suc n) buffers = do
    ptr ← new_box
    token ← add H [] (whole ptr ∷ [])
    assert (i == token)
    new_loop (i + 1) n (buffers ++ (ptr ∷ []))

  abbrev pub owning : T.State → Run (Driver H.State) (List ℕ) → Run (Driver H.State) Owning
  owning t (ok buffers d) = ok (record { driver = d; transport = t; buffers = buffers }) d
  owning t (err e d) = err e d
  owning t panic = panic

  -- `OwningQueue::new`
  unfoldable pub new : T.State → Cmd (Driver H.State) Owning
  unfolding new_loop
  new t d = owning t (new_loop 0 d.queue.size [] d)

  -- `set_dev_notify`
  unfoldable pub set_notify : Bool → Cmd Owning (Unit {0})
  set_notify enable = do
    w ← get
    put (record w { driver = record w.driver { queue = set_dev_notify enable w.driver.queue } })

  -- `if self.queue.should_notify() { transport.notify(…) }`
  abbrev pub notify_device : Cmd Owning (Unit {0})
  notify_device = do
    w ← get
    put (
        if should_notify w.driver.queue
        then record w { transport = T.notify w.driver.queue.queue_idx w.transport }
        else w)

  -- the end of `add_buffer_to_queue`, for the buffer at the index or for none
  abbrev pub add_there : ℕ → Option ℕ → Cmd Owning (Unit {0})
  add_there index none = fail wrong_token
  add_there index (some ptr) = do
    new_token ← on_queue (add H [] (whole ptr ∷ []))
    assert (new_token == index)
    notify_device

  -- `add_buffer_to_queue`
  unfoldable pub add_buffer_to_queue : ℕ → Cmd Owning (Unit {0})
  add_buffer_to_queue index = do w ← get; add_there index (get_elem? w.buffers index)

  -- the end of `pop`, for the token that the device has used
  abbrev pub pop_token : Option ℕ → Cmd Owning (Option (Buffer × ℕ))
  pop_token none = pure none
  pop_token (some token) = do
    w ← get
    ptr ← unwrap (get_elem? w.buffers token)
    len ← on_queue (pop_used H token [] (whole ptr ∷ []))
    assert (leb len buffer_size)
    pure (some (record { ptr = ptr; len = len }, token))

  -- `pop`: the bytes that the device has written, and the index of their buffer
  unfoldable pub pop : Cmd Owning (Option (Buffer × ℕ))
  pop = do w ← get; used ← unwrap (peek_used w.driver.queue); pop_token used

  -- the handler's answer, after the buffer has been given back
  abbrev pub answer {ℓ} :
      {W : Type ℓ} {A : Type ℓ} → Run W A → Run Owning (Unit {0}) → Run (Owning × W) A
  answer (ok a c) (ok u w) = ok a (w, c)
  answer (err e c) (ok u w) = err e (w, c)
  answer (ok a c) (err e w) = err e (w, c)
  answer (err x c) (err e w) = err e (w, c)
  answer panic r = panic
  answer (ok a c) panic = panic
  answer (err e c) panic = panic

  -- the rest of `poll`, after `pop`
  abbrev pub handled {ℓ} :
      {W : Type ℓ} {A : Type ℓ}
      → (Buffer → Cmd W (Option A))
      → W
      → Run Owning (Option (Buffer × ℕ))
      → Run (Owning × W) (Option A)
  handled handler c (ok none w) = ok none (w, c)
  handled handler c (ok (some (buffer, token)) w) =
      answer (handler buffer c) (add_buffer_to_queue token w)
  handled handler c (err e w) = err e (w, c)
  handled handler c panic = panic

  -- `poll`, with the state of the handler
  unfoldable pub poll {ℓ} :
      {W : Type ℓ} {A : Type ℓ} → (Buffer → Cmd W (Option A)) → Cmd (Owning × W) (Option A)
  unfolding pop add_buffer_to_queue
  poll handler (w, c) = handled handler c (pop w)
