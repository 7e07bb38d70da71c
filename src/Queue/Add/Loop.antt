-- ===== src/Queue/Add/Loop.antt =====
-- The loop of `add_direct` in src/queue.rs: what one turn and all turns do to the driver.
use Prim.Native.Nat.{bit_or}
use virtio_drivers_and_devic.Prelude.{
  ne_of_count, count-take-le, count-cons_self, ==→eq, sym, ℕ, ◌^◌, ◌≤◌, ◌<◌, ◌≡◌, ◌≢◌, refl, ◌∙◌,
  ap, List, [], ◌∷◌, length, take, drop, arith, set, count, get_or-set_ne, get_or-set_self, lt→ltb,
  ◌==◌, length-set, Bool-cases, inl, inr, ne→==, some, get_elem?-eq-get_or, get_elem?-set_self,
}
use virtio_drivers_and_devic.Error.{ok}
use virtio_drivers_and_devic.Hal.{Hal, BufferDirection, driver_to_device, device_to_driver, both}
use virtio_drivers_and_devic.Queue.Descriptor.{
  Descriptor, zeroed, DescFlags, direction_flag, Request, next_flag, set_buf,
}
use virtio_drivers_and_devic.Queue.State.{VirtQueue, Driver, write_desc}
use virtio_drivers_and_devic.Queue.Chain.{
  at, Linked, Linked-frame, Item, slots, write_bit, start, Open, last_slot,
}
use virtio_drivers_and_devic.Queue.Add.{add_descriptor, add_loop}

-- a request that `add` accepts without a panic
pub record Sendable (r : Request) : Type 0 where
  pub nonempty : r.buffer.len ≢ 0
  pub small : r.buffer.len < 2 ^ 32
  pub one_way : r.direction ≢ both

abbrev pub AllSendable : List Request → Type 0
AllSendable [] = Unit
AllSendable (r ∷ rs) = Sendable r × AllSendable rs

pub direction_flag-some : (d : BufferDirection) → d ≢ both → direction_flag d ≡ some (write_bit d)
direction_flag-some driver_to_device h = refl
direction_flag-some device_to_driver h = refl
direction_flag-some both h = absurd (h refl)

at-set :
    (ds : List Descriptor) (i j : ℕ) (e : Descriptor)
    → i ≡ j
    → i < length ds
    → at (set ds i e) j ≡ e
at-set ds i j e p h = rw (← p) (get_or-set_self ds i e zeroed h)

-- the descriptor that `set_buf` leaves
abbrev pub written : Request → DescFlags → ℕ → Descriptor → Descriptor
written r link paddr old = record old {
  addr = paddr;
  len = r.buffer.len;
  flags = bit_or link (write_bit r.direction);
}

module _ (H : Hal) where
  pub set_buf-some :
      (old : Descriptor) (r : Request) (link : DescFlags) (s : H.State)
      → Sendable r
      → set_buf H old r link s
        ≡ some (
          written r link (H.share r.buffer r.direction s).0 old,
          (H.share r.buffer r.direction s).1,
        )
  unfolding set_buf
  set_buf-some old r link s v =
      rw (lt→ltb r.buffer.len (2 ^ 32) v.small, direction_flag-some r.direction v.one_way)

  abbrev pub filled : Request → Driver H.State → Driver H.State
  filled r d =
      let q = d.queue in
      let e =
        written r next_flag (H.share r.buffer r.direction d.hal).0 (at q.desc_shadow q.free_head) in
      record {
        queue = record q {
          desc_shadow = set q.desc_shadow q.free_head e;
          free_head = e.next;
          desc = set q.desc q.free_head e;
        };
        hal = (H.share r.buffer r.direction d.hal).1;
      }

  add_descriptor-filled :
      (r : Request) (d : Driver H.State)
      → Sendable r
      → d.queue.free_head < length d.queue.desc_shadow
      → d.queue.free_head < length d.queue.desc
      → add_descriptor H r d ≡ ok d.queue.free_head (filled r d)
  unfolding add_descriptor write_desc
  add_descriptor-filled r d v h k = rw (
    ne→== r.buffer.len 0 v.nonempty,
    get_elem?-eq-get_or q.desc_shadow q.free_head zeroed h,
    set_buf-some (at q.desc_shadow q.free_head) r next_flag d.hal v,
    get_elem?-set_self q.desc_shadow q.free_head e h,
    lt→ltb q.free_head (length q.desc) k,
  )
    where
      q : VirtQueue
      q = d.queue

      e : Descriptor
      e = written r next_flag (H.share r.buffer r.direction d.hal).0 (at q.desc_shadow q.free_head)

  -- the items that the loop posts, in the free slots `is`
  abbrev pub items : List Request → List ℕ → H.State → List Item
  items [] is s = []
  items (r ∷ rs) [] s = []
  items (r ∷ rs) (i ∷ is) s =
      record { slot = i; addr = (H.share r.buffer r.direction s).0; request = r }
      ∷ items rs is (H.share r.buffer r.direction s).1

  -- each buffer is shared once, in order
  abbrev pub share_all : List Request → H.State → H.State
  share_all [] s = s
  share_all (r ∷ rs) s = share_all rs (H.share r.buffer r.direction s).1

  pub fill : List Request → Driver H.State → Driver H.State
  fill [] d = d
  fill (r ∷ rs) d = fill rs (filled r d)

  pub slots-items :
      (rs : List Request) (is : List ℕ) (s : H.State)
      → length rs ≤ length is
      → slots (items rs is s) ≡ take (length rs) is
  slots-items [] is s h = refl
  slots-items (r ∷ rs) [] s h = absurd (omega arith)
  slots-items (r ∷ rs) (i ∷ is) s h =
      ap (λ js. i ∷ js) (slots-items rs is (H.share r.buffer r.direction s).1 (omega arith))

  -- What the loop leaves of `d`, where `d'` is the result: the chain of the new items, the rest of
  -- the free list, every other descriptor as it was, and a table that shows the device the chain.
  pub record Filled (d d' : Driver H.State) (rs : List Request) (is : List ℕ) : Type 0 where
    pub same_length : length d'.queue.desc_shadow ≡ length d.queue.desc_shadow
    pub same_desc_length : length d'.queue.desc ≡ length d.queue.desc
    pub entry : d.queue.free_head ≡ start (items rs is d.hal) d'.queue.free_head
    pub chain : Open d'.queue.desc_shadow (items rs is d.hal) d'.queue.free_head
    pub rest : Linked d'.queue.desc_shadow d'.queue.free_head (drop (length rs) is)
    pub others :
        (j : ℕ)
        → count j (slots (items rs is d.hal)) ≡ 0
        → at d'.queue.desc_shadow j ≡ at d.queue.desc_shadow j
    pub others_desc :
        (j : ℕ) → count j (slots (items rs is d.hal)) ≡ 0 → at d'.queue.desc j ≡ at d.queue.desc j
    pub mirrored :
        (j : ℕ)
        → count j (slots (items rs is d.hal)) ≢ 0
        → at d'.queue.desc j ≡ at d'.queue.desc_shadow j
    pub shared : d'.hal ≡ share_all rs d.hal
    pub same_fields : d'.queue ≡ record d.queue {
      desc = d'.queue.desc;
      desc_shadow = d'.queue.desc_shadow;
      free_head = d'.queue.free_head;
    }

  fill-nil :
      (d : Driver H.State) (is : List ℕ)
      → Linked d.queue.desc_shadow d.queue.free_head is
      → Filled d d [] is
  fill-nil d is l = record {
    same_length = refl;
    same_desc_length = refl;
    entry = refl;
    chain = tt;
    rest = l;
    others = λ j c. refl;
    others_desc = λ j c. refl;
    mirrored = λ j c. absurd (c refl);
    shared = refl;
    same_fields = refl;
  }

  -- One turn ahead of the others.
  fill-cons :
      (r : Request) (rs : List Request) (d d' : Driver H.State) (i : ℕ) (is : List ℕ)
      → d.queue.free_head ≡ i
      → i < length d.queue.desc_shadow
      → length d.queue.desc ≡ length d.queue.desc_shadow
      → count i (slots (items rs is (filled r d).hal)) ≡ 0
      → Filled (filled r d) d' rs is
      → Filled d d' (r ∷ rs) (i ∷ is)
  fill-cons r rs d d' i is e h k fresh f = record {
    same_length = f.same_length ∙ length-set d.queue.desc_shadow d.queue.free_head _;
    same_desc_length = f.same_desc_length ∙ length-set d.queue.desc d.queue.free_head _;
    entry = e;
    chain = (
      record {
        inside = omega (arith, f.same_length, length-set d.queue.desc_shadow d.queue.free_head new);
        addr = rw here;
        len = rw here;
        flags = rw here;
      },
      rw here f.entry,
      f.chain,
    );
    rest = f.rest;
    others = λ j c.
        let (ne, c') = ne_of_count j i later c in
        f.others j c' ∙ get_or-set_ne d.queue.desc_shadow d.queue.free_head j new zeroed (rw e ne);
    others_desc = λ j c.
        let (ne, c') = ne_of_count j i later c in
        f.others_desc j c' ∙ get_or-set_ne d.queue.desc d.queue.free_head j new zeroed (rw e ne);
    mirrored = λ j c. elim (Bool-cases (count j later == 0)) [
      | inl none_later ↦
          let c' = ==→eq (count j later) 0 none_later in
          let i=j : i ≡ j = ground (arith, c) in
          f.others_desc j c'
          ∙ at-set d.queue.desc d.queue.free_head j new (e ∙ i=j) (omega arith)
          ∙ sym (
              f.others j c'
              ∙ at-set d.queue.desc_shadow d.queue.free_head j new (e ∙ i=j) (omega arith))
      | inr some_later ↦ f.mirrored j (ground (arith, some_later))
    ];
    shared = f.shared;
    same_fields = f.same_fields;
  }
    where
      later : List ℕ
      later = slots (items rs is (filled r d).hal)

      new : Descriptor
      new =
          written r next_flag (H.share r.buffer r.direction d.hal).0
            (at d.queue.desc_shadow d.queue.free_head)

      here : at d'.queue.desc_shadow i ≡ new
      here = f.others i fresh ∙ at-set d.queue.desc_shadow d.queue.free_head i new e (omega arith)

  filled-Linked :
      (r : Request) (d : Driver H.State) (i : ℕ) (is : List ℕ)
      → d.queue.free_head ≡ i
      → count i is ≡ 0
      → Linked d.queue.desc_shadow (at d.queue.desc_shadow i).next is
      → Linked (filled r d).queue.desc_shadow (filled r d).queue.free_head is
  filled-Linked r d i is e c l =
      Linked-frame d.queue.desc_shadow (filled r d).queue.desc_shadow
        (length-set d.queue.desc_shadow d.queue.free_head _) is (filled r d).queue.free_head
        (λ j h.
          get_or-set_ne d.queue.desc_shadow d.queue.free_head j _ zeroed (λ p. h (rw (← p, e) c)))
        (rw e l)

  -- With enough free slots the loop returns, and leaves a driver as `Filled` says.
  pub add_loop-fill :
      (rs : List Request) (is : List ℕ) (d : Driver H.State) (last : ℕ)
      → AllSendable rs
      → Linked d.queue.desc_shadow d.queue.free_head is
      → length rs ≤ length is
      → ((j : ℕ) → count j is ≤ 1)
      → length d.queue.desc ≡ length d.queue.desc_shadow
      → (add_loop H rs last d ≡ ok (last_slot last (items rs is d.hal)) (fill rs d))
        × Filled d (fill rs d) rs is
  unfolding add_loop fill
  add_loop-fill [] is d last v l n once k = (refl, fill-nil d is l)
  add_loop-fill (r ∷ rs) [] d last v l n once k = absurd (omega arith)
  add_loop-fill (r ∷ rs) (i ∷ is) d last (v, vs) (e, h, l) n once k =
      let absent : count i is ≡ 0 = omega (arith, once i, count-cons_self i is) in
      let (loop, f) =
        add_loop-fill rs is (filled r d) (d.queue.free_head) vs (filled-Linked r d i is e absent l)
          (omega arith) (λ j. omega (arith, once j))
          (length-set d.queue.desc d.queue.free_head _
            ∙ k
            ∙ sym (length-set d.queue.desc_shadow d.queue.free_head _)) in
      let fresh : count i (slots (items rs is (filled r d).hal)) ≡ 0 =
        rw (slots-items rs is (filled r d).hal (omega arith))
          (omega (arith, count-take-le i (length rs) is)) in
      (
        rw (add_descriptor-filled r d v (omega arith) (omega arith)) (
            loop
            ∙ ap (λ (s : ℕ). ok (last_slot s (items rs is (filled r d).hal)) (fill rs (filled r d)))
                e),
        fill-cons r rs d (fill rs (filled r d)) i is e h k fresh f,
      )
