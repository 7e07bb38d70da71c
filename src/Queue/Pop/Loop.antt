-- ===== src/Queue/Pop/Loop.antt =====
-- The direct loop of `recycle_descriptors` in src/queue.rs, over the chain of a request.
use Prim.Native.Nat.{bit_or}
use virtio_drivers_and_devic.Prelude.{
  sym, ap, ◌∙◌, refl, ℕ, ◌+◌, ◌-◌, ◌<◌, ◌≤◌, ◌≡◌, ◌≢◌, Option, some, none, true, false, List, [],
  ◌∷◌, ◌++◌, length, length-set, get_elem?-eq-get_or, get_elem?-set_self, get_or-set_ne,
  get_or-set_self, set, arith, count, count-cons_self, lt→ltb, ne→==, ne_of_count,
}
use virtio_drivers_and_devic.Error.{ok}
use virtio_drivers_and_devic.Hal.{Hal, BufferDirection, driver_to_device, device_to_driver, both}
use virtio_drivers_and_devic.Queue.Descriptor.{
  Descriptor, zeroed, Request, contains, next_flag, indirect_flag, next_of, unset_buf,
}
use virtio_drivers_and_devic.Queue.State.{Driver, write_desc}
use virtio_drivers_and_devic.Queue.Chain.{
  at, Linked, Item, slots, write_bit, Holds, Posted, start, Posted-frame, Linked-frame,
}
use virtio_drivers_and_devic.Queue.Pop.{recycle_one, recycle_loop, link_last}

link_kept : (d : BufferDirection) → contains (bit_or next_flag (write_bit d)) next_flag ≡ true
link_kept driver_to_device = refl
link_kept device_to_driver = refl
link_kept both = refl

link_gone : (d : BufferDirection) → contains (bit_or 0 (write_bit d)) next_flag ≡ false
link_gone driver_to_device = refl
link_gone device_to_driver = refl
link_gone both = refl

pub not_indirect :
    (d : BufferDirection)
    → (contains (bit_or 0 (write_bit d)) indirect_flag ≡ false)
      × (contains (bit_or next_flag (write_bit d)) indirect_flag ≡ false)
not_indirect driver_to_device = (refl, refl)
not_indirect device_to_driver = (refl, refl)
not_indirect both = (refl, refl)

abbrev pub requests : List Item → List Request
requests [] = []
requests (x ∷ xs) = x.request ∷ requests xs

abbrev pub AllNonempty : List Request → Type 0
AllNonempty [] = Unit
AllNonempty (r ∷ rs) = (r.buffer.len ≢ 0) × AllNonempty rs

module _ (H : Hal) where
  -- each buffer is given back once, at the address under which it was shared
  abbrev pub unshare_all : List Item → H.State → H.State
  unshare_all [] s = s
  unshare_all (x ∷ xs) s = unshare_all xs (H.unshare x.addr x.request.buffer x.request.direction s)

  -- the driver after one turn, which leaves `e` in the slot
  abbrev emptied_one : Descriptor → Item → Driver H.State → Driver H.State
  emptied_one e x d = record {
    queue = record d.queue {
      num_used = d.queue.num_used - 1;
      desc_shadow = set d.queue.desc_shadow x.slot e;
      desc = set d.queue.desc x.slot e;
    };
    hal = H.unshare x.addr x.request.buffer x.request.direction d.hal;
  }

  -- the descriptor without its buffer
  abbrev bare : Item → Driver H.State → Descriptor
  bare x d = unset_buf (at d.queue.desc_shadow x.slot)

  bare_next :
      (x : Item) (y : ℕ) (d : Driver H.State)
      → Holds d.queue.desc_shadow x next_flag
      → (at d.queue.desc_shadow x.slot).next ≡ y
      → next_of (bare x d) ≡ some y
  unfolding next_of unset_buf
  bare_next x y d h e = rw (h.flags, link_kept x.request.direction, e)

  bare_end :
      (x : Item) (d : Driver H.State) → Holds d.queue.desc_shadow x 0 → next_of (bare x d) ≡ none
  unfolding next_of unset_buf
  bare_end x d h = rw (h.flags, link_gone x.request.direction)

  -- one turn, on the last descriptor or on another
  recycle_one-emptied :
      (original : ℕ) (x : Item) (link : ℕ) (following : Option ℕ) (d : Driver H.State)
      → Holds d.queue.desc_shadow x link
      → next_of (bare x d) ≡ following
      → x.request.buffer.len ≢ 0
      → 0 < d.queue.num_used
      → x.slot < length d.queue.desc
      → recycle_one H original x.request (some x.slot) d
        ≡ ok following (emptied_one (link_last following original (bare x d)) x d)
  unfolding recycle_one write_desc
  recycle_one-emptied original x link following d h e v n k = rw (
    ne→== x.request.buffer.len 0 v,
    get_elem?-eq-get_or d.queue.desc_shadow x.slot zeroed h.inside,
    lt→ltb 0 d.queue.num_used n,
    e,
    get_elem?-set_self d.queue.desc_shadow x.slot (link_last following original (bare x d))
        h.inside,
    lt→ltb x.slot (length d.queue.desc) k,
    h.addr,
  )

  -- What the loop leaves of `d`, where `d'` is the result.
  pub record Emptied (original : ℕ) (d d' : Driver H.State) (xs : List Item) : Type 0 where
    pub same_length : length d'.queue.desc_shadow ≡ length d.queue.desc_shadow
    pub same_desc_length : length d'.queue.desc ≡ length d.queue.desc
    pub freed :
        (free : List ℕ)
        → ((j : ℕ) → count j (slots xs) + count j free ≤ 1)
        → Linked d.queue.desc_shadow original free
        → (entry : ℕ) → ((rest : ℕ) → start xs rest ≡ entry)
        → Linked d'.queue.desc_shadow entry (slots xs ++ free)
    pub others :
        (j : ℕ) → count j (slots xs) ≡ 0 → at d'.queue.desc_shadow j ≡ at d.queue.desc_shadow j
    pub fewer : d'.queue.num_used + length xs ≡ d.queue.num_used
    pub unshared : d'.hal ≡ unshare_all xs d.hal
    pub same_fields : d'.queue ≡ record d.queue {
      num_used = d'.queue.num_used;
      desc = d'.queue.desc;
      desc_shadow = d'.queue.desc_shadow;
    }

  -- the frame of one turn
  module _ (e : Descriptor) (x : Item) (d : Driver H.State) where
    one_other :
        (j : ℕ) → x.slot ≢ j → at (emptied_one e x d).queue.desc_shadow j ≡ at d.queue.desc_shadow j
    one_other j ne = get_or-set_ne d.queue.desc_shadow x.slot j e zeroed ne

    one_length : length (emptied_one e x d).queue.desc_shadow ≡ length d.queue.desc_shadow
    one_length = length-set d.queue.desc_shadow x.slot e

    one_Linked :
        (free : List ℕ) (head : ℕ)
        → count x.slot free ≡ 0
        → Linked d.queue.desc_shadow head free
        → Linked (emptied_one e x d).queue.desc_shadow head free
    one_Linked free head absent l =
        Linked-frame d.queue.desc_shadow (emptied_one e x d).queue.desc_shadow one_length free head
          (λ j c. one_other j (λ p. c (ap (λ k. count k free) (sym p) ∙ absent))) l

    one_Posted :
        (xs : List Item)
        → count x.slot (slots xs) ≡ 0
        → Posted d.queue.desc_shadow xs
        → Posted (emptied_one e x d).queue.desc_shadow xs
    one_Posted xs absent p =
        Posted-frame d.queue.desc_shadow (emptied_one e x d).queue.desc_shadow one_length xs
          (λ j c. one_other j (λ q. c (ap (λ k. count k (slots xs)) (sym q) ∙ absent))) p

  -- the last turn
  Emptied-end :
      (original : ℕ) (x : Item) (d : Driver H.State)
      → x.slot < length d.queue.desc_shadow
      → 0 < d.queue.num_used
      → Emptied original d (emptied_one (link_last none original (bare x d)) x d) (x ∷ [])
  Emptied-end original x d h n = record {
    same_length = one_length e x d;
    same_desc_length = length-set d.queue.desc x.slot e;
    freed = λ free once l entry at_entry. (
      sym (at_entry 0),
      omega (arith, one_length e x d),
      rw (get_or-set_self d.queue.desc_shadow x.slot e zeroed h) (
          one_Linked e x d free original (omega (arith, once x.slot, count-cons_self x.slot [])) l),
    );
    others = λ j c. one_other e x d j (ne_of_count j x.slot [] c).0;
    fewer = omega arith;
    unshared = refl;
    same_fields = refl;
  }
    where
      e : Descriptor
      e = link_last none original (bare x d)

  bare-next :
      (x : Item) (d : Driver H.State) → (bare x d).next ≡ (at d.queue.desc_shadow x.slot).next
  unfolding unset_buf
  bare-next x d = refl

  -- a turn ahead of the others
  Emptied-more :
      (original : ℕ) (x y : Item) (ys : List Item) (d d' : Driver H.State)
      → x.slot < length d.queue.desc_shadow
      → 0 < d.queue.num_used
      → (at d.queue.desc_shadow x.slot).next ≡ y.slot
      → count x.slot (slots (y ∷ ys)) ≡ 0
      → Emptied original (emptied_one (bare x d) x d) d' (y ∷ ys)
      → Emptied original d d' (x ∷ y ∷ ys)
  Emptied-more original x y ys d d' h n e absent f = record {
    same_length = f.same_length ∙ one_length b x d;
    same_desc_length = f.same_desc_length ∙ length-set d.queue.desc x.slot b;
    freed = λ free once l entry at_entry.
        let absent_free : count x.slot free ≡ 0 =
          omega (arith, once x.slot, count-cons_self x.slot (slots (y ∷ ys))) in
        let rest =
          f.freed free (λ j. omega (arith, once j)) (one_Linked b x d free original absent_free l)
            y.slot (λ _. refl) in
        (
          sym (at_entry 0),
          omega (arith, f.same_length, one_length b x d),
          rw (here, bare-next x d, e) rest,
        );
    others = λ j c.
        let (ne, c') = ne_of_count j x.slot (slots (y ∷ ys)) c in
        f.others j c' ∙ one_other b x d j ne;
    fewer = omega (arith, f.fewer);
    unshared = f.unshared;
    same_fields = f.same_fields;
  }
    where
      b : Descriptor
      b = bare x d

      here : at d'.queue.desc_shadow x.slot ≡ b
      here = f.others x.slot absent ∙ get_or-set_self d.queue.desc_shadow x.slot b zeroed h

  -- On a chain in flight the loop returns at its end, and leaves a driver as `Emptied` says.
  pub recycle_loop-Emptied :
      (original : ℕ) (x : Item) (xs : List Item) (d : Driver H.State)
      → Posted d.queue.desc_shadow (x ∷ xs)
      → ((j : ℕ) → count j (slots (x ∷ xs)) ≤ 1)
      → AllNonempty (requests (x ∷ xs))
      → length (x ∷ xs) ≤ d.queue.num_used
      → length d.queue.desc ≡ length d.queue.desc_shadow
      → (d' : Driver H.State) × (recycle_loop H original (requests (x ∷ xs)) (some x.slot) d
          ≡ ok none d')
        × Emptied original d d' (x ∷ xs)
  unfolding recycle_loop
  recycle_loop-Emptied original x [] d p once (v, vs) n k = (
    _,
    rw (
        recycle_one-emptied original x 0 none d p (bare_end x d p) v (omega arith)
          (omega (arith, p.inside))),
    Emptied-end original x d p.inside (omega arith),
  )
  recycle_loop-Emptied original x (y ∷ ys) d (h, e, p) once (v, vs) n k =
      let absent : count x.slot (slots (y ∷ ys)) ≡ 0 =
        omega (arith, once x.slot, count-cons_self x.slot (slots (y ∷ ys))) in
      let (d', loop, f) =
        recycle_loop-Emptied original y ys (emptied_one (bare x d) x d)
          (one_Posted (bare x d) x d (y ∷ ys) absent p) (λ j. omega (arith, once j)) vs
          (omega arith) (length-set d.queue.desc x.slot _ ∙ k ∙ sym (one_length (bare x d) x d)) in
      (
        d',
        rw
            (recycle_one-emptied original x next_flag (some y.slot) d h (bare_next x y.slot d h e) v
              (omega arith) (omega (arith, h.inside)))
            loop,
        Emptied-more original x y ys d d' h.inside (omega arith) e absent f,
      )
