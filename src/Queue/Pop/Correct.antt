-- ===== src/Queue/Pop/Correct.antt =====
-- What a call of `pop_used` in src/queue.rs comes to, whatever the device wrote to the used ring.
use virtio_drivers_and_devic.Prelude.{
  sym, ap, ◌∙◌, refl, ℕ, ◌+◌, ◌%◌, ◌^◌, ◌<◌, ◌≤◌, ◌≡◌, ◌≢◌, ◌⊎◌, inl, inr, Bool-cases, some, none,
  true, false, List, [], ◌∷◌, ◌++◌, length, length-append, get_or, get_elem?, get_elem?-eq-get_or,
  arith, count, count-append, ◌==◌, ==→eq, ne_of_==, if◌then◌else◌,
}
use virtio_drivers_and_devic.Error.{Run, ok, err, not_ready, wrong_token}
use virtio_drivers_and_devic.Hal.{Hal, Buffer}
use virtio_drivers_and_devic.Queue.Descriptor.{
  Descriptor, zeroed, contains, indirect_flag, input_output_iter,
}
use virtio_drivers_and_devic.Queue.State.{
  VirtQueue, UsedElem, Driver, can_pop, ring_slot, wrapping_add,
}
use virtio_drivers_and_devic.Queue.Chain.{at, Item, slots, Posted}
use virtio_drivers_and_devic.Queue.Valid.{
  IsValid, Flight, chain, token, AllPosted, AllPosted-frame, AllPosted-flight, flight_slots,
  count-flight, length-flight, length-slots, owned_once,
}
use virtio_drivers_and_devic.Queue.Add.Direct.{ring_slot-lt}
use virtio_drivers_and_devic.Queue.Pop.{
  recycle_descriptors, recycle_direct, recycle_loop, finish_pop, pop_used,
}
use virtio_drivers_and_devic.Queue.Pop.Loop.{
  requests, AllNonempty, unshare_all, Emptied, recycle_loop-Emptied, not_indirect,
}

-- the first descriptor of a chain is no indirect one
first_direct :
    (ds : List Descriptor) (x : Item) (xs : List Item)
    → Posted ds (x ∷ xs)
    → (x.slot < length ds) × (contains (at ds x.slot).flags indirect_flag ≡ false)
first_direct ds x [] h = (h.inside, rw h.flags (not_indirect x.request.direction).0)
first_direct ds x (y ∷ ys) (h, e, p) = (h.inside, rw h.flags (not_indirect x.request.direction).1)

-- the element of the used ring that is next, as the device wrote it
abbrev pub next_elem : VirtQueue → UsedElem
next_elem q = get_or q.used.ring (ring_slot q q.last_used_idx) (record { id = 0; len = 0 })

module _ (H : Hal) where
  -- the driver with the head of the chain as head of the free list
  abbrev headed : ℕ → Driver H.State → Driver H.State
  headed head d = record d { queue = record d.queue { free_head = head } }

  recycle-direct :
      (head : ℕ) (inputs outputs : List Buffer) (d d' : Driver H.State)
      → head < length d.queue.desc_shadow
      → contains (at d.queue.desc_shadow head).flags indirect_flag ≡ false
      → recycle_loop H d.queue.free_head
          (input_output_iter inputs outputs)
          (some head)
          (headed head d)
        ≡ ok none d'
      → recycle_descriptors H head inputs outputs d ≡ ok tt d'
  unfolding recycle_descriptors recycle_direct
  recycle-direct head inputs outputs d d' h e loop =
      rw (get_elem?-eq-get_or d.queue.desc_shadow head zeroed h, e, loop)

  -- the driver after `finish_pop`
  abbrev popped : Driver H.State → Driver H.State
  popped d =
      let q = d.queue in
      let idx = wrapping_add q.last_used_idx 1 in
      record d {
        queue = record q {
          last_used_idx = idx;
          avail = if q.event_idx then record q.avail { used_event = idx } else q.avail;
        };
      }

  -- What a successful `pop_used` of the flight `f` leaves: the queue is well formed without `f`,
  -- whose slots are free again, and each of its buffers was given back once, under its address.
  pub record Popped (d d' : Driver H.State) (free : List ℕ) (f : Flight) (flights : List Flight)
      : Type 0 where
    pub valid : IsValid d'.queue (slots (chain f) ++ free) flights
    pub unshared : d'.hal ≡ unshare_all H (chain f) d.hal
    pub next_used : d'.queue.last_used_idx ≡ wrapping_add d.queue.last_used_idx 1
    pub same_avail_ring : d'.queue.avail.ring ≡ d.queue.avail.ring
    pub same_size : d'.queue.size ≡ d.queue.size

  module _ (d d' : Driver H.State) (free : List ℕ) (before : List Flight) (f : Flight)
      (after : List Flight) (v : IsValid d.queue free (before ++ (f ∷ after)))
      (e : Emptied H d.queue.free_head (headed (token f) d) d' (chain f)) where
    popped_field {ℓ} :
        {A : Type ℓ} (field : VirtQueue → A)
        → field d'.queue
          ≡ field (record d.queue {
            free_head = token f;
            num_used = d'.queue.num_used;
            desc = d'.queue.desc;
            desc_shadow = d'.queue.desc_shadow;
          })
    popped_field field = ap field e.same_fields

    popped_once :
        (j : ℕ)
        → count j (slots (chain f)) + (count j free + count j (flight_slots (before ++ after))) ≤ 1
    popped_once j =
        omega (arith, owned_once j d.queue.size _ (v.owned j), count-flight f after before j)

    popped_avail : (popped d').queue.avail.ring ≡ d'.queue.avail.ring
    popped_avail = ground arith

    popped-IsValid : IsValid (popped d').queue (slots (chain f) ++ free) (before ++ after)
    popped-IsValid = record {
      width = v.width;
      size_pow = popped_field (λ q. q.size) ∙ v.size_pow;
      size_small = rw (popped_field (λ q. q.size)) v.size_small;
      shadow_length = e.same_length ∙ v.shadow_length ∙ sym (popped_field (λ q. q.size));
      desc_length = e.same_desc_length ∙ v.desc_length ∙ sym (popped_field (λ q. q.size));
      avail_length =
          ap (λ (r : List ℕ). length r) popped_avail
          ∙ ap (λ q. length q.avail.ring) e.same_fields
          ∙ v.avail_length
          ∙ sym (popped_field (λ q. q.size));
      used_length =
          ap (λ q. length q.used.ring) e.same_fields
          ∙ v.used_length
          ∙ sym (popped_field (λ q. q.size));
      direct = popped_field (λ q. q.indirect) ∙ v.direct;
      free_linked =
          rw (popped_field (λ q. q.free_head))
            (e.freed free (λ j. omega (arith, popped_once j)) v.free_linked (token f) (λ _. refl));
      owned = λ j. rw (popped_field (λ q. q.size)) (
          omega (
            arith,
            v.owned j,
            count-flight f after before j,
            count-append j (slots (chain f)) free,
          ));
      counted = omega (
        arith,
        popped_field (λ q. q.size),
        e.fewer,
        v.counted,
        length-append (slots (chain f)) free,
        length-slots (chain f),
      );
      in_use = omega (arith, e.fewer, v.in_use, length-flight f after before);
      posted =
          AllPosted-frame d.queue.desc_shadow d'.queue.desc_shadow (before ++ after) e.same_length
            (λ j c. e.others j (omega (arith, popped_once j, c)))
            (AllPosted-flight f after d.queue.desc_shadow before v.posted).1;
    }

    popped-Popped : Popped d (popped d') free f (before ++ after)
    popped-Popped = record {
      valid = popped-IsValid;
      unshared = e.unshared;
      next_used = popped_field (λ q. wrapping_add q.last_used_idx 1);
      same_avail_ring = popped_avail ∙ popped_field (λ q. q.avail.ring);
      same_size = popped_field (λ q. q.size);
    }

  -- The three ways in which `pop_used` can end, each with the condition under which it does.
  abbrev pub PopOutcome :
      Driver H.State → List ℕ → List Flight → Flight → Run (Driver H.State) ℕ → Type 0
  PopOutcome d free flights f result =
      ((can_pop d.queue ≡ false) × (result ≡ err not_ready d))
      ⊎ (((can_pop d.queue ≡ true)
            × ((next_elem d.queue).id % 2 ^ 16 ≢ token f)
            × (result ≡ err wrong_token d))
          ⊎ ((d' : Driver H.State) × (can_pop d.queue ≡ true)
              × ((next_elem d.queue).id % 2 ^ 16 ≡ token f)
              × (result ≡ ok (next_elem d.queue).len d')
              × Popped d d' free f flights))

  -- On a well-formed queue, which has no indirect descriptors, for a chain in flight and the
  -- buffers with which it was added, none of them empty, `pop_used` never panics, whatever the
  -- device wrote. Without a used element it is not ready, and with one for another chain the token
  -- is wrong; both leave the driver as it was. Otherwise it returns the length that the device
  -- wrote, and leaves a driver as `Popped` says.
  pub pop_used-PopOutcome :
      (inputs outputs : List Buffer) (d : Driver H.State) (free : List ℕ) (before : List Flight)
      (f : Flight) (after : List Flight)
      → IsValid d.queue free (before ++ (f ∷ after))
      → input_output_iter inputs outputs ≡ requests (chain f)
      → AllNonempty (requests (chain f))
      → PopOutcome d free (before ++ after) f (pop_used H (token f) inputs outputs d)
  unfolding pop_used finish_pop
  pop_used-PopOutcome inputs outputs d free before f after v same nonempty =
      elim (Bool-cases (can_pop d.queue)) [
        | inr idle ↦ inl (idle, rw idle)
        | inl ready ↦ elim (Bool-cases ((next_elem d.queue).id % 2 ^ 16 == token f)) [
          | inr other ↦ inr (inl (ready, ne_of_== _ _ other, rw (ready, elem, other)))
          | inl hit ↦
              let index = ==→eq _ _ hit in
              let (d', loop, e) =
                recycle_loop-Emptied H d.queue.free_head f.first f.others (headed (token f) d)
                  mine.0 (λ j. omega (arith, popped_at_most j)) nonempty
                  (omega (arith, v.in_use, length-flight f after before))
                  (v.desc_length ∙ sym v.shadow_length) in
              let first = first_direct d.queue.desc_shadow f.first f.others mine.0 in
              inr (
                inr (
                  popped d',
                  ready,
                  index,
                  rw (
                    ready,
                    elem,
                    hit,
                    index,
                    recycle-direct (token f) inputs outputs d d' first.0 first.1 (rw same loop),
                  ),
                  popped-Popped d d' free before f after v e,
                ))
        ]
      ]
    where
      mine : Posted d.queue.desc_shadow (chain f) × AllPosted d.queue.desc_shadow (before ++ after)
      mine = AllPosted-flight f after d.queue.desc_shadow before v.posted

      popped_at_most : (j : ℕ) → count j (slots (chain f)) ≤ 1
      popped_at_most j =
          omega (arith, owned_once j d.queue.size _ (v.owned j), count-flight f after before j)

      elem :
          get_elem? d.queue.used.ring (ring_slot d.queue d.queue.last_used_idx)
          ≡ some (next_elem d.queue)
      elem =
          get_elem?-eq-get_or d.queue.used.ring (ring_slot d.queue d.queue.last_used_idx)
            (record { id = 0; len = 0 })
            (omega
              (arith, ring_slot-lt d.queue v.width d.queue.last_used_idx v.size_pow, v.used_length))
