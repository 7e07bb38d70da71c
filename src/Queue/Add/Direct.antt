-- ===== src/Queue/Add/Direct.antt =====
-- `add` of src/queue.rs on a well-formed queue without indirect descriptors.
use native.Mathlib.Nat.{mod-eq_of_lt, mod-lt}
use virtio_drivers_and_devic.Prelude.{
  ==→eq, ne_of_==, sym, count-take-drop, count-append, ℕ, ◌+◌, ◌^◌, ◌≤◌, ◌<◌, ◌≡◌, ◌≢◌, refl, ◌∙◌,
  ap, List, [], ◌∷◌, length, drop, arith, set, count, get_or-set_ne, get_or-set_self, lt→ltb, ◌==◌,
  length-set, length-drop, length-take, length-append, Bool-cases, inl, inr, get_elem?-eq-get_or,
  get_elem?-set_self,
}
use virtio_drivers_and_devic.Prelude.Bits.{bit_and-mask, pow-pos}
use virtio_drivers_and_devic.Error.{ok}
use virtio_drivers_and_devic.Hal.{Hal, Buffer}
use virtio_drivers_and_devic.Queue.Descriptor.{Descriptor, zeroed, Request, input_output_iter}
use virtio_drivers_and_devic.Queue.State.{VirtQueue, Driver, write_desc, ring_slot, wrapping_add}
use virtio_drivers_and_devic.Queue.Chain.{
  at, Linked, Item, slots, Posted, last_slot, end_of, Posted-end, Posted-frame, Linked-frame,
  last_slot-count,
}
use virtio_drivers_and_devic.Queue.Valid.{
  IsValid, Flight, AllPosted, AllPosted-frame, owned_inside, owned_once, flight_slots,
}
use virtio_drivers_and_devic.Queue.Add.{add_loop, add_direct, offer}
use virtio_drivers_and_devic.Queue.Add.Loop.{items, slots-items, fill, Filled}

pub length-input_output_iter :
    (inputs outputs : List Buffer)
    → length (input_output_iter inputs outputs) ≡ length inputs + length outputs
unfolding input_output_iter
length-input_output_iter [] [] = refl
length-input_output_iter [] (o ∷ outputs) = omega (arith, length-input_output_iter [] outputs)
length-input_output_iter (i ∷ inputs) outputs =
    omega (arith, length-input_output_iter inputs outputs)

pub ring_slot-lt :
    (q : VirtQueue) (width index : ℕ) → q.size ≡ 2 ^ width → ring_slot q index < q.size
ring_slot-lt q width index e = rw (e, bit_and-mask width index) (mod-lt index (pow-pos width))

module _ (H : Hal) where
  -- the driver after the loop, with the chain ended at `last` and `n` more descriptors in use
  abbrev pub ended : Driver H.State → ℕ → ℕ → Driver H.State
  ended d last n =
      let q = d.queue in
      record d {
        queue = record q {
          desc_shadow = set q.desc_shadow last (end_of (at q.desc_shadow last));
          desc = set q.desc last (end_of (at q.desc_shadow last));
          num_used = q.num_used + n;
        };
      }

  abbrev pub offered : Driver H.State → ℕ → Driver H.State
  offered d head =
      let q = d.queue in
      record d {
        queue = record q {
          avail = record q.avail {
            ring = set q.avail.ring (ring_slot q q.avail_idx) head;
            idx = wrapping_add q.avail_idx 1;
          };
          avail_idx = wrapping_add q.avail_idx 1;
        };
      }

  pub add_direct-ended :
      (inputs outputs : List Buffer) (d d₁ : Driver H.State) (last : ℕ)
      → add_loop H (input_output_iter inputs outputs) d.queue.free_head d ≡ ok last d₁
      → last < length d₁.queue.desc_shadow
      → last < length d₁.queue.desc
      → d₁.queue.num_used + (length inputs + length outputs) < 2 ^ 16
      → add_direct H inputs outputs d
        ≡ ok d.queue.free_head (ended d₁ last (length inputs + length outputs))
  unfolding add_direct write_desc
  add_direct-ended inputs outputs d d₁ last loop h k small = rw (
    loop,
    get_elem?-eq-get_or d₁.queue.desc_shadow last zeroed h,
    get_elem?-set_self d₁.queue.desc_shadow last (end_of (at d₁.queue.desc_shadow last)) h,
    lt→ltb last (length d₁.queue.desc) k,
    mod-eq_of_lt n-lt,
    lt→ltb (d₁.queue.num_used + (length inputs + length outputs)) (2 ^ 16) small,
  )
    where
      n-lt : length inputs + length outputs < 2 ^ 16
      n-lt = omega arith

  pub offer-offered :
      (head : ℕ) (d : Driver H.State)
      → ring_slot d.queue d.queue.avail_idx < length d.queue.avail.ring
      → offer H head d ≡ ok head (offered d head)
  unfolding offer
  offer-offered head d h =
      rw (lt→ltb (ring_slot d.queue d.queue.avail_idx) (length d.queue.avail.ring) h)

  module _ (d d₁ : Driver H.State) (r : Request) (rs : List Request) (i : ℕ) (is : List ℕ)
      (flights : List Flight) (v : IsValid d.queue (i ∷ is) flights)
      (room : length (r ∷ rs) ≤ length (i ∷ is)) (f : Filled H d d₁ (r ∷ rs) (i ∷ is)) where
    abbrev pub posted : List Item
    posted = items H (r ∷ rs) (i ∷ is) d.hal

    abbrev pub flight : Flight
    flight = record {
      first = record { slot = i; addr = (H.share r.buffer r.direction d.hal).0; request = r };
      others = items H rs is (H.share r.buffer r.direction d.hal).1;
    }

    abbrev pub left : List ℕ
    left = drop (length rs) is

    abbrev pub last : ℕ
    last = last_slot d.queue.free_head posted

    abbrev pub finished : Driver H.State
    finished = ended d₁ last (length (r ∷ rs))

    owner : (j : ℕ) → count j (slots posted) + count j left ≡ count j (i ∷ is)
    owner j =
        ap (λ js. count j js + count j left) (slots-items H (r ∷ rs) (i ∷ is) d.hal room)
        ∙ count-take-drop j (length (r ∷ rs)) (i ∷ is)

    at_most : (j : ℕ) → count j (i ∷ is) + count j (flight_slots flights) ≤ 1
    at_most j = owned_once j d.queue.size _ (v.owned j)

    last_owned : count last (slots posted) ≢ 0
    last_owned = last_slot-count flight.first flight.others d.queue.free_head

    pub same_field {ℓ} :
        {A : Type ℓ} (field : VirtQueue → A)
        → field d₁.queue
          ≡ field (record d.queue {
            desc = d₁.queue.desc;
            desc_shadow = d₁.queue.desc_shadow;
            free_head = d₁.queue.free_head;
          })
    same_field field = ap field f.same_fields

    pub shadow_size : length d₁.queue.desc_shadow ≡ d.queue.size
    shadow_size = f.same_length ∙ v.shadow_length

    pub desc_size : length d₁.queue.desc ≡ d.queue.size
    desc_size = f.same_desc_length ∙ v.desc_length

    pub last-lt : last < d.queue.size
    last-lt =
        owned_inside last d.queue.size _ (v.owned last) (omega (arith, owner last, last_owned))

    ended_same : (j : ℕ) → j ≢ last → at finished.queue.desc_shadow j ≡ at d₁.queue.desc_shadow j
    ended_same j ne = get_or-set_ne d₁.queue.desc_shadow last j _ zeroed (λ p. ne (sym p))

    finished_length : length finished.queue.desc_shadow ≡ length d₁.queue.desc_shadow
    finished_length = length-set d₁.queue.desc_shadow last _

    pub finished-Posted : Posted finished.queue.desc_shadow posted
    finished-Posted =
        Posted-end d₁.queue.desc_shadow finished.queue.desc_shadow flight.first flight.others
          d₁.queue.free_head d.queue.free_head finished_length
          (λ j. omega (arith, owner j, at_most j)) f.chain
          (get_or-set_self d₁.queue.desc_shadow last _ zeroed (omega (arith, last-lt, shadow_size)))
          ended_same

    finished-Linked : Linked finished.queue.desc_shadow d₁.queue.free_head left
    finished-Linked =
        Linked-frame d₁.queue.desc_shadow finished.queue.desc_shadow finished_length left
          d₁.queue.free_head
          (λ j c. ended_same j (λ p.
            c (ap (λ k. count k left) p ∙ omega (arith, owner last, at_most last, last_owned))))
          f.rest

    -- the device's table shows the chain
    pub finished-shown : Posted finished.queue.desc posted
    finished-shown =
        Posted-frame finished.queue.desc_shadow finished.queue.desc
          (length-set d₁.queue.desc last _ ∙ desc_size ∙ sym shadow_size ∙ sym finished_length)
          posted same finished-Posted
      where
        e : Descriptor
        e = end_of (at d₁.queue.desc_shadow last)

        same :
            (j : ℕ)
            → count j (slots posted) ≢ 0
            → at finished.queue.desc j ≡ at finished.queue.desc_shadow j
        same j c = elim (Bool-cases (j == last)) [
          | inl here ↦ rw (==→eq j last here) (
              get_or-set_self d₁.queue.desc last e zeroed (omega (arith, last-lt, desc_size))
              ∙ sym (
                  get_or-set_self d₁.queue.desc_shadow last e zeroed
                    (omega (arith, last-lt, shadow_size))))
          | inr other ↦
              let ne : last ≢ j = λ p. absurd (ne_of_== j last other (sym p)) in
              get_or-set_ne d₁.queue.desc last j e zeroed ne
              ∙ f.mirrored j c
              ∙ sym (get_or-set_ne d₁.queue.desc_shadow last j e zeroed ne)
        ]

    finished-AllPosted : AllPosted finished.queue.desc_shadow flights
    finished-AllPosted =
        AllPosted-frame d.queue.desc_shadow finished.queue.desc_shadow flights
          (finished_length ∙ f.same_length)
          (λ j c.
            ended_same j (λ p. c (
              ap (λ k. count k (flight_slots flights)) p
              ∙ omega (arith, owner last, at_most last, last_owned)))
            ∙ f.others j (omega (arith, owner j, at_most j, c)))
          v.posted

    pub finished-IsValid : IsValid finished.queue left (flight ∷ flights)
    finished-IsValid = record {
      width = v.width;
      size_pow = same_field (λ q. q.size) ∙ v.size_pow;
      size_small = rw (same_field (λ q. q.size)) v.size_small;
      shadow_length = finished_length ∙ shadow_size ∙ sym (same_field (λ q. q.size));
      desc_length = length-set d₁.queue.desc last _ ∙ desc_size ∙ sym (same_field (λ q. q.size));
      avail_length =
          ap (λ q. length q.avail.ring) f.same_fields
          ∙ v.avail_length
          ∙ sym (same_field (λ q. q.size));
      used_length =
          ap (λ q. length q.used.ring) f.same_fields
          ∙ v.used_length
          ∙ sym (same_field (λ q. q.size));
      direct = same_field (λ q. q.indirect) ∙ v.direct;
      free_linked = finished-Linked;
      owned = λ j.
          rw (same_field (λ q. q.size)) (
            omega
              (arith, v.owned j, owner j, count-append j (slots posted) (flight_slots flights)));
      counted = omega (
        arith,
        same_field (λ q. q.size),
        same_field (λ q. q.num_used),
        v.counted,
        length-drop (length rs) is,
      );
      in_use = omega (
        arith,
        same_field (λ q. q.num_used),
        v.in_use,
        length-append (slots posted) (flight_slots flights),
        ap (λ (js : List ℕ). length js) (slots-items H (r ∷ rs) (i ∷ is) d.hal room),
        length-take (length (r ∷ rs)) (i ∷ is),
      );
      posted = (finished-Posted, finished-AllPosted);
    }

  -- what `add` leaves behind its loop
  abbrev pub outcome : Driver H.State → List Request → ℕ → ℕ → Driver H.State
  outcome d rs last head = offered (ended (fill H rs d) last (length rs)) head

  pub offered-IsValid :
      (d : Driver H.State) (head : ℕ) (free : List ℕ) (flights : List Flight)
      → IsValid d.queue free flights
      → IsValid (offered d head).queue free flights
  offered-IsValid d head free flights v = record {
    width = v.width;
    size_pow = v.size_pow;
    size_small = v.size_small;
    shadow_length = v.shadow_length;
    desc_length = v.desc_length;
    avail_length = length-set d.queue.avail.ring _ head ∙ v.avail_length;
    used_length = v.used_length;
    direct = v.direct;
    free_linked = v.free_linked;
    owned = v.owned;
    counted = v.counted;
    in_use = v.in_use;
    posted = v.posted;
  }
