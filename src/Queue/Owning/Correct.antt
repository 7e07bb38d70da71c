-- ===== src/Queue/Owning/Correct.antt =====
-- What `new` and `poll` of src/queue/owning.rs come to, whatever the device wrote.
use mathlib.Core.Path.{subst}
use virtio_drivers_and_devic.Prelude.{
  ℕ, zero, suc, ◌+◌, ◌%◌, ◌^◌, ◌≡◌, ◌≢◌, ◌⊎◌, ◌<◌, ◌≤◌, ◌==◌, refl, sym, ap, ◌∙◌, arith, inl, inr,
  true, false, Bool-cases, ltb, leb, Option, some, none, List, [], ◌∷◌, ◌++◌, length, get_or,
  get_elem?, count, length-append, get_elem?-eq-get_or,
}
use virtio_drivers_and_devic.Error.{Cmd, Run, ok, panic}
use virtio_drivers_and_devic.Hal.{Hal, Buffer}
use virtio_drivers_and_devic.Transport.{Transport}
use virtio_drivers_and_devic.Queue.Descriptor.{input_output_iter}
use virtio_drivers_and_devic.Queue.State.{VirtQueue, Driver, can_pop, ring_slot}
use virtio_drivers_and_devic.Queue.Valid.{IsValid, Flight, token, flight_slots}
use virtio_drivers_and_devic.Queue.Add.Direct.{ring_slot-lt}
use virtio_drivers_and_devic.Queue.New.Correct.{numbers}
use virtio_drivers_and_devic.Queue.Pop.{peek_used, pop_used, should_notify}
use virtio_drivers_and_devic.Queue.Pop.Loop.{AllNonempty}
use virtio_drivers_and_devic.Queue.Pop.Correct.{next_elem, pop_used-PopOutcome}
use virtio_drivers_and_devic.Queue.Owning.{
  OwningQueue, Owning, whole, new_loop, new, add_buffer_to_queue, pop, poll, answer,
}
use virtio_drivers_and_devic.Queue.Owning.Stocked.{
  AllOwned, AllOwned-more, AllOwned-without, requests-Owned, flight_in, add-Owned, get_or-last,
  slots-Owned,
}

-- All buffers wait for the device.
pub record Stocked {S T : Type 0} (buffer_size : ℕ) (w : OwningQueue S T) : Type 0 where
  pub flights : List Flight
  pub valid : IsValid w.driver.queue [] flights
  pub owned : AllOwned buffer_size w.buffers flights
  pub enough : length w.buffers ≡ w.driver.queue.size

-- the index of the buffer that the device has used next
abbrev pub next_token : VirtQueue → ℕ
next_token q = (next_elem q).id % 2 ^ 16

get_elem?-beyond : (xs : List ℕ) (i : ℕ) → length xs ≤ i → get_elem? xs i ≡ none
get_elem?-beyond [] i h = refl
get_elem?-beyond (x ∷ xs) zero h = absurd (omega arith)
get_elem?-beyond (x ∷ xs) (suc i) h = get_elem?-beyond xs i (omega arith)

==-self : (i : ℕ) → (i == i) ≡ true
==-self i = ground arith

module _ (H : Hal) (T : Transport) (buffer_size : ℕ) (positive : 0 < buffer_size)
    (small : buffer_size < 2 ^ 32) where
  -- The allocator does not run out of memory.
  abbrev pub HasMemory : Type 0
  HasMemory = (n : ℕ) (s : H.State) → (ptr : ℕ) × ((H.alloc n s).0 ≡ some ptr)

  new_loop-Stocked :
      HasMemory
      → (n i : ℕ) (d : Driver H.State) (t : T.State) (flights : List Flight) (buffers : List ℕ)
      → IsValid d.queue (numbers i n) flights
      → AllOwned buffer_size buffers flights
      → length buffers ≡ i
      → i + n ≡ d.queue.size
      → (d' : Driver H.State) × (buffers' : List ℕ) × (new_loop H T buffer_size i n buffers d
          ≡ ok buffers' d')
        × Stocked buffer_size (record { driver = d'; transport = t; buffers = buffers' })
  unfolding new_loop
  new_loop-Stocked memory zero i d t flights buffers v a l e =
      (d, buffers, refl, record { flights = flights; valid = v; owned = a; enough = omega arith })
  new_loop-Stocked memory (suc n) i d t flights buffers v a l e =
      let (ptr, there) = memory buffer_size d.hal in
      let s = (H.alloc buffer_size d.hal).1 in
      let more = buffers ++ (ptr ∷ []) in
      let longer = length-append buffers (ptr ∷ []) in
      let (d', f, is, valid, owned, same) =
        add-Owned H buffer_size positive small (record d { hal = s }) i (numbers (i + 1) n) flights
          more ptr v (AllOwned-more buffer_size buffers (ptr ∷ []) flights a)
          (omega (arith, longer)) (ap (λ j. get_or more j 0) (sym l) ∙ get_or-last buffers ptr) in
      let (d'', buffers', loop, stocked) =
        new_loop-Stocked memory n (i + 1) d' t (f ∷ flights) more valid owned
          (omega (arith, longer)) (omega (arith, same)) in
      (d'', buffers', rw (there, is, ==-self i, loop) refl, stocked)

  -- `new` on a queue that is well formed, with all slots free in ascending order from 0, as
  -- `VirtQueue::new` leaves it, for buffers that are not empty and shorter than `2 ^ 32` bytes, and
  -- with an allocator that does not run out of memory, does not fail or panic: the buffer `i` gets
  -- the token `i`, and all are in flight.
  pub new-Stocked :
      (d : Driver H.State) (t : T.State)
      → IsValid d.queue (numbers 0 d.queue.size) []
      → HasMemory
      → (w : Owning H T buffer_size) × (d' : Driver H.State) × (new H T buffer_size t d ≡ ok w d')
        × Stocked buffer_size w
  unfolding new
  new-Stocked d t v memory =
      let (d', buffers, is, stocked) =
        new_loop-Stocked memory d.queue.size 0 d t [] [] v tt refl (omega arith) in
      (record { driver = d'; transport = t; buffers = buffers }, d', rw is refl, stocked)

  peek_used-next :
      (q : VirtQueue) (free : List ℕ) (flights : List Flight)
      → IsValid q free flights
      → can_pop q ≡ true
      → peek_used q ≡ some (some (next_token q))
  unfolding peek_used
  peek_used-next q free flights v ready =
      rw
        (
          ready,
          get_elem?-eq-get_or q.used.ring (ring_slot q q.last_used_idx) (record { id = 0; len = 0 })
              (omega (arith, ring_slot-lt q v.width q.last_used_idx v.size_pow, v.used_length)),
        )
        refl

  peek_used-idle : (q : VirtQueue) → can_pop q ≡ false → peek_used q ≡ some none
  unfolding peek_used
  peek_used-idle q idle = rw idle refl

  slot_used :
      (q : VirtQueue) (flights : List Flight) (i : ℕ)
      → IsValid q [] flights
      → i < q.size
      → count i (flight_slots flights) ≢ 0
  slot_used q flights i v h e = ground (arith, v.owned i)

  -- the buffer of the given index is added again
  add_buffer-Stocked :
      (w : Owning H T buffer_size) (i : ℕ) (flights : List Flight)
      → IsValid w.driver.queue (i ∷ []) flights
      → AllOwned buffer_size w.buffers flights
      → length w.buffers ≡ w.driver.queue.size
      → i < length w.buffers
      → (w' : Owning H T buffer_size) × (add_buffer_to_queue H T buffer_size i w ≡ ok tt w')
        × Stocked buffer_size w'
        × (w'.buffers ≡ w.buffers)
  unfolding add_buffer_to_queue
  add_buffer-Stocked w i flights v a n h =
      let (d', f, is, valid, owned, same) =
        add-Owned H buffer_size positive small w.driver i [] flights w.buffers
          (get_or w.buffers i 0) v a h refl in
      let here = get_elem?-eq-get_or w.buffers i 0 h in
      elim (Bool-cases (should_notify d'.queue)) [
        | inl told ↦ (
          record w { driver = d'; transport = T.notify d'.queue.queue_idx w.transport },
          rw (here, is, ==-self i, told) refl,
          record { flights = f ∷ flights; valid = valid; owned = owned; enough = omega arith },
          refl,
        )
        | inr quiet ↦ (
          record w { driver = d' },
          rw (here, is, ==-self i, quiet) refl,
          record { flights = f ∷ flights; valid = valid; owned = owned; enough = omega arith },
          refl,
        )
      ]

  -- The three ways in which `poll` can end: there is no used buffer; or the device wrote an index
  -- or a length that no buffer has, which panics; or the handler gets what the device wrote to the
  -- buffer of its index, which is in flight again when its answer is returned.
  abbrev pub PollOutcome {ℓ} :
      {W A : Type ℓ}
      → (Buffer → Cmd W (Option A))
      → Owning H T buffer_size
      → W
      → Run (Owning H T buffer_size × W) (Option A)
      → Type ℓ
  PollOutcome handler w c result =
      let q = w.driver.queue in
      let e = next_elem q in
      ((can_pop q ≡ false) × (result ≡ ok none (w, c)))
      ⊎ (((can_pop q ≡ true) × ((q.size ≤ next_token q) ⊎ (buffer_size < e.len)) × (result ≡ panic))
          ⊎ ((can_pop q ≡ true)
              × (next_token q < q.size)
              × (e.len ≤ buffer_size)
              × ((w' : Owning H T buffer_size) × Stocked buffer_size w'
                  × (w'.buffers ≡ w.buffers)
                  × (result
                      ≡ answer H T buffer_size
                          (handler (record { ptr = get_or w.buffers (next_token q) 0; len = e.len })
                            c)
                          (ok tt w')))))

  module _ (w : Owning H T buffer_size) (stocked : Stocked buffer_size w)
      (ready : can_pop w.driver.queue ≡ true) where
    -- what `pop_used` does with the buffer of the index that the device wrote
    abbrev PoppedAt : ℕ → Type 0
    PoppedAt i =
        (d' : Driver H.State) × (flights : List Flight) × (pop_used H i []
            (whole H T buffer_size (get_or w.buffers i 0) ∷ []) w.driver
          ≡ ok (next_elem w.driver.queue).len d')
        × IsValid d'.queue (i ∷ []) flights
        × AllOwned buffer_size w.buffers flights
        × (d'.queue.size ≡ w.driver.queue.size)

    popped_from :
        (i : ℕ) (before : List Flight) (f : Flight) (after : List Flight)
        → next_token w.driver.queue ≡ i
        → IsValid w.driver.queue [] (before ++ (f ∷ after))
        → AllOwned buffer_size w.buffers (before ++ (f ∷ after))
        → token f ≡ i
        → PoppedAt i
    unfolding input_output_iter
    popped_from i before f after used v a is =
        let (o, others) = AllOwned-without buffer_size w.buffers before f after a in
        let same = requests-Owned buffer_size w.buffers f o in
        subst PoppedAt is
          (elim (pop_used-PopOutcome H []
            (whole H T buffer_size (get_or w.buffers (token f) 0) ∷ []) w.driver [] before f after v
            (sym same) (subst AllNonempty (sym same) (omega (arith, positive), tt))) [
              | inl (idle, r) ↦ absurd (ground (arith, idle, ready))
              | inr (inl (x, other, r)) ↦ absurd (other (used ∙ sym is))
              | inr (inr (d', x, y, r, p)) ↦ (
                d',
                before ++ after,
                r,
                subst (λ xs. IsValid d'.queue (xs ++ []) (before ++ after))
                    (slots-Owned buffer_size w.buffers f o) p.valid,
                others,
                p.same_size,
              )
            ])

    popped_at :
        next_token w.driver.queue < w.driver.queue.size → PoppedAt (next_token w.driver.queue)
    popped_at inside =
        let i = next_token w.driver.queue in
        let (before, f, after, same, is) =
          flight_in buffer_size w.buffers stocked.flights i stocked.owned
            (slot_used w.driver.queue stocked.flights i stocked.valid inside) in
        popped_from i before f after refl
          (subst (λ fs. IsValid w.driver.queue [] fs) same stocked.valid)
          (subst (λ fs. AllOwned buffer_size w.buffers fs) same stocked.owned) is

  -- On a queue whose buffers all wait for the device, and whatever the device wrote, `poll` ends in
  -- one of the three ways of `PollOutcome`, if the buffers are not empty and shorter than `2 ^ 32`
  -- bytes.
  pub poll-PollOutcome {ℓ} :
      {W A : Type ℓ} (handler : Buffer → Cmd W (Option A)) (w : Owning H T buffer_size) (c : W)
      → Stocked buffer_size w
      → PollOutcome handler w c (poll H T buffer_size handler (w, c))
  unfolding poll pop
  poll-PollOutcome handler w c stocked = elim (Bool-cases (can_pop w.driver.queue)) [
    | inr idle ↦ inl (idle, rw (peek_used-idle w.driver.queue idle) refl)
    | inl ready ↦
        let q = w.driver.queue in
        let used = peek_used-next q [] stocked.flights stocked.valid ready in
        elim (Bool-cases (ltb (next_token q) q.size)) [
          | inr outside ↦ inr (
              inl (
                ready,
                inl (ground arith),
                rw
                    (
                      used,
                      get_elem?-beyond w.buffers (next_token q) (ground (arith, stocked.enough)),
                    )
                    refl,
              ))
          | inl inside ↦
              let (d', flights, is, valid, owned, same) =
                popped_at w stocked ready (ground arith) in
              let here =
                get_elem?-eq-get_or w.buffers (next_token q) 0 (ground (arith, stocked.enough)) in
              elim (Bool-cases (leb (next_elem q).len buffer_size)) [
                | inr long ↦ inr (inl (ready, inr (ground arith), rw (used, here, is, long) refl))
                | inl fits ↦
                    let (w', added, full, kept) =
                      add_buffer-Stocked (record w { driver = d' }) (next_token q) flights valid
                        owned (omega (arith, same, stocked.enough))
                        (ground (arith, stocked.enough)) in
                    inr (
                      inr (
                        ready,
                        ground arith,
                        ground arith,
                        (w', full, kept, rw (used, here, is, fits, added) refl),
                      ))
              ]
        ]
  ]
