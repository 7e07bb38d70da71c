-- ===== src/Queue/Add/Correct.antt =====
-- What a call of `add` in src/queue.rs comes to.
use virtio_drivers_and_devic.Prelude.{
  sym, ℕ, ◌+◌, ◌≤◌, ◌<◌, ◌≡◌, ◌⊎◌, inl, inr, refl, ◌∙◌, ap, List, [], ◌∷◌, length, get_or,
  get_or-set_self, ap₂, drop, arith, ltb, ◌&&◌, if◌then◌else◌, true, false,
}
use virtio_drivers_and_devic.Error.{ok, err, queue_full, invalid_param}
use virtio_drivers_and_devic.Hal.{Hal, Buffer}
use virtio_drivers_and_devic.Queue.Descriptor.{Request, input_output_iter}
use virtio_drivers_and_devic.Queue.State.{
  VirtQueue, Driver, ring_slot, wrapping_add, available_desc,
}
use virtio_drivers_and_devic.Queue.Chain.{Posted, last_slot}
use virtio_drivers_and_devic.Queue.Valid.{IsValid, Flight, chain, token, owned_once}
use virtio_drivers_and_devic.Queue.Add.{
  add_indirect, add_loop, add_direct, add_chain, offer, add, is_empty, has_no_room,
}
use virtio_drivers_and_devic.Queue.Add.Loop.{
  AllSendable, items, share_all, fill, Filled, add_loop-fill,
}
use virtio_drivers_and_devic.Queue.Add.Direct.{
  length-input_output_iter, ring_slot-lt, ended, offered, add_direct-ended, offer-offered, flight,
  last, finished, finished-IsValid, finished-shown, offered-IsValid, shadow_size, desc_size,
  last-lt, same_field,
}

-- `n` more buffers fit: neither test of `add` fires.
room_test :
    (q : VirtQueue) (n : ℕ)
    → q.indirect ≡ false
    → 0 < n
    → q.num_used + n ≤ q.size
    → has_no_room q n ≡ false
room_test q n e h k = ground arith

no_room_test :
    (q : VirtQueue) (n : ℕ) → q.num_used ≤ q.size → available_desc q < n → has_no_room q n ≡ true
unfolding available_desc
no_room_test q n h k = ground arith

empty_test :
    (inputs outputs : List Buffer)
    → length inputs + length outputs ≡ 0
    → (is_empty inputs && is_empty outputs) ≡ true
empty_test inputs outputs h = ground arith

nonempty_test :
    (inputs outputs : List Buffer)
    → 0 < length inputs + length outputs
    → (is_empty inputs && is_empty outputs) ≡ false
nonempty_test inputs outputs h = ground arith

module _ (H : Hal) where
  -- What a successful `add` leaves: the queue is well formed with the new chain in flight in the
  -- first free slots, the device's table shows that chain, the available ring offers its head, and
  -- each buffer was shared once, in order.
  pub record Added (d d' : Driver H.State) (rs : List Request) (free : List ℕ)
      (flights : List Flight) (f : Flight) : Type 0 where
    pub chain_items : chain f ≡ items H rs free d.hal
    pub valid : IsValid d'.queue (drop (length rs) free) (f ∷ flights)
    pub shown : Posted d'.queue.desc (chain f)
    pub offers : get_or d'.queue.avail.ring (ring_slot d.queue d.queue.avail_idx) 0 ≡ token f
    pub offers_idx : d'.queue.avail.idx ≡ wrapping_add d.queue.avail_idx 1
    pub shared : d'.hal ≡ share_all H rs d.hal
    pub same_used : d'.queue.used ≡ d.queue.used
    pub same_size : d'.queue.size ≡ d.queue.size
    pub same_last_used : d'.queue.last_used_idx ≡ d.queue.last_used_idx

  add_chain-direct :
      (inputs outputs : List Buffer) (d : Driver H.State)
      → d.queue.indirect ≡ false
      → add_chain H inputs outputs d ≡ add_direct H inputs outputs d
  unfolding add_chain
  add_chain-direct inputs outputs d e =
      ap
        (λ b.
          if b && ltb 1 (length inputs + length outputs)
          then add_indirect H inputs outputs d
          else add_direct H inputs outputs d)
        e

  -- the parts of a successful `add`
  add-parts :
      (inputs outputs : List Buffer) (d d₁ d₂ : Driver H.State) (head : ℕ)
      → d.queue.indirect ≡ false
      → 0 < length inputs + length outputs
      → d.queue.num_used + (length inputs + length outputs) ≤ d.queue.size
      → add_direct H inputs outputs d ≡ ok head d₁
      → offer H head d₁ ≡ ok head d₂
      → add H inputs outputs d ≡ ok head d₂
  unfolding add
  add-parts inputs outputs d d₁ d₂ head e h k direct o = rw (
    nonempty_test inputs outputs h,
    room_test d.queue (length inputs + length outputs) e h k,
    add_chain-direct inputs outputs d e,
    direct,
    o,
  )

  module _ (inputs outputs : List Buffer) (d d₁ : Driver H.State) (r : Request) (rs : List Request)
      (i : ℕ) (is : List ℕ) (flights : List Flight)
      (total : length inputs + length outputs ≡ length (r ∷ rs))
      (v : IsValid d.queue (i ∷ is) flights) (room : length (r ∷ rs) ≤ length (i ∷ is))
      (loop : add_loop H (input_output_iter inputs outputs) d.queue.free_head d
        ≡ ok (last_slot d.queue.free_head (items H (r ∷ rs) (i ∷ is) d.hal)) d₁)
      (f : Filled H d d₁ (r ∷ rs) (i ∷ is)) where
    abbrev fin : Driver H.State
    fin = finished H d d₁ r rs i is flights v room f

    fin-IsValid :
        IsValid fin.queue (drop (length rs) is) (flight H d d₁ r rs i is flights v room f ∷ flights)
    fin-IsValid = finished-IsValid H d d₁ r rs i is flights v room f

    fin_field {ℓ} :
        {A : Type ℓ} (field : VirtQueue → A)
        → field d₁.queue
          ≡ field (record d.queue {
            desc = d₁.queue.desc;
            desc_shadow = d₁.queue.desc_shadow;
            free_head = d₁.queue.free_head;
          })
    fin_field = same_field H d d₁ r rs i is flights v room f

    add_direct-fin : add_direct H inputs outputs d ≡ ok i fin
    add_direct-fin =
        add_direct-ended H inputs outputs d d₁ _ loop
          (omega (
            arith,
            last-lt H d d₁ r rs i is flights v room f,
            shadow_size H d d₁ r rs i is flights v room f,
          ))
          (omega (
            arith,
            last-lt H d d₁ r rs i is flights v room f,
            desc_size H d d₁ r rs i is flights v room f,
          ))
          (omega (arith, fin_field (λ q. q.num_used), v.counted, v.size_small, total))
        ∙ ap₂ (λ h n. ok h (ended H d₁ (last H d d₁ r rs i is flights v room f) n)) v.free_linked.0
            total

    slot_same : ring_slot fin.queue fin.queue.avail_idx ≡ ring_slot d.queue d.queue.avail_idx
    slot_same = fin_field (λ q. ring_slot q q.avail_idx)

    slot_inside : ring_slot fin.queue fin.queue.avail_idx < length fin.queue.avail.ring
    slot_inside = omega (
      arith,
      ring_slot-lt fin.queue fin-IsValid.width fin.queue.avail_idx fin-IsValid.size_pow,
      fin-IsValid.avail_length,
    )

    added_from :
        (add H inputs outputs d ≡ ok i (offered H fin i))
        × Added d
            (offered H fin i)
            (r ∷ rs)
            (i ∷ is)
            flights
            (flight H d d₁ r rs i is flights v room f)
    added_from = (
      add-parts inputs outputs d fin (offered H fin i) i v.direct (omega arith)
          (omega (arith, v.counted)) add_direct-fin (offer-offered H i fin slot_inside),
      record {
        chain_items = refl;
        valid = offered-IsValid H fin i _ _ fin-IsValid;
        shown = finished-shown H d d₁ r rs i is flights v room f;
        offers =
            ap (λ s. get_or (offered H fin i).queue.avail.ring s 0) (sym slot_same)
            ∙ get_or-set_self fin.queue.avail.ring (ring_slot fin.queue fin.queue.avail_idx) i 0
                slot_inside;
        offers_idx = fin_field (λ q. wrapping_add q.avail_idx 1);
        shared = f.shared;
        same_used = fin_field (λ q. q.used);
        same_size = fin_field (λ q. q.size);
        same_last_used = fin_field (λ q. q.last_used_idx);
      },
    )

  added :
      (inputs outputs : List Buffer) (d : Driver H.State) (rs : List Request) (free : List ℕ)
      (flights : List Flight)
      → input_output_iter inputs outputs ≡ rs
      → IsValid d.queue free flights
      → AllSendable rs
      → 0 < length rs
      → length rs ≤ length free
      → (d' : Driver H.State) × (f : Flight) × (add H inputs outputs d ≡ ok (token f) d')
        × Added d d' rs free flights f
  added inputs outputs d [] free flights e v ok_rs some_rs room = absurd (omega arith)
  added inputs outputs d (r ∷ rs) [] flights e v ok_rs some_rs room = absurd (omega arith)
  added inputs outputs d (r ∷ rs) (i ∷ is) flights e v ok_rs some_rs room =
      let (loop, f) =
        add_loop-fill H (r ∷ rs) (i ∷ is) d d.queue.free_head ok_rs v.free_linked room
          (λ j. omega (arith, owned_once j d.queue.size _ (v.owned j)))
          (v.desc_length ∙ sym v.shadow_length) in
      let total = sym (length-input_output_iter inputs outputs) ∙ ap length e in
      let (done, a) =
        added_from inputs outputs d (fill H (r ∷ rs) d) r rs i is flights total v room (rw e loop)
          f in
      (_, _, done, a)

  -- On a well-formed queue, which has no indirect descriptors, `add` of at least one and at most
  -- `available_desc` buffers, none of them empty or of `2 ^ 32` bytes or more, returns the slot of
  -- a new chain, as `Added` says.
  pub add-Added :
      (inputs outputs : List Buffer) (d : Driver H.State) (free : List ℕ) (flights : List Flight)
      → IsValid d.queue free flights
      → AllSendable (input_output_iter inputs outputs)
      → 0 < length inputs + length outputs
      → length inputs + length outputs ≤ available_desc d.queue
      → (d' : Driver H.State) × (f : Flight) × (add H inputs outputs d ≡ ok (token f) d')
        × Added d d' (input_output_iter inputs outputs) free flights f
  unfolding available_desc
  add-Added inputs outputs d free flights v ok_rs some_rs room =
      let n = length-input_output_iter inputs outputs in
      added inputs outputs d (input_output_iter inputs outputs) free flights refl v ok_rs
        (omega (arith, n)) (ground (arith, n, v.counted))

-- Whatever the mode, `add` refuses what is no buffer at all, or more buffers than `available_desc`
-- says, and leaves the driver as it was: the first is an invalid parameter, the second too much
-- for the queue.
pub add_refuses :
    (H : Hal) (inputs outputs : List Buffer) (d : Driver H.State)
    → d.queue.num_used ≤ d.queue.size
    → (length inputs + length outputs ≡ 0)
      ⊎ (available_desc d.queue < length inputs + length outputs)
    → ((length inputs + length outputs ≡ 0) × (add H inputs outputs d ≡ err invalid_param d))
      ⊎ ((0 < length inputs + length outputs) × (add H inputs outputs d ≡ err queue_full d))
unfolding add
add_refuses H inputs outputs d h (inl e) = inl (e, rw (empty_test inputs outputs e) refl)
add_refuses H inputs outputs d h (inr k) = inr (
  omega arith,
  rw
      (
        nonempty_test inputs outputs (omega arith),
        no_room_test d.queue (length inputs + length outputs) h k,
      )
      refl,
)
