-- ===== src/Queue/New/Correct.antt =====
-- What a call of `VirtQueue::new` in src/queue.rs comes to.
use virtio_drivers_and_devic.Prelude.{
  ℕ, zero, suc, ◌+◌, ◌-◌, ◌*◌, ◌^◌, ◌≤◌, ◌<◌, ◌≡◌, ◌⊎◌, inl, inr, refl, ap, ◌∙◌, arith, List, [],
  ◌∷◌, length, get_or, replicate, count, length-set, length-replicate, get_or-set_self,
  get_or-set_ne, ==→eq, ne_of_==, Bool, true, false, Bool-cases, ltb, leb, ◌&&◌, if◌then◌else◌,
  some, none, ◌==◌,
}
use virtio_drivers_and_devic.Error.{Run, ok, err, already_used, invalid_param, dma_error}
use virtio_drivers_and_devic.Hal.{Hal, Dma, BufferDirection, dma_vaddr, usize_sum}
use virtio_drivers_and_devic.Memory.{page_size}
use virtio_drivers_and_devic.Transport.{Transport}
use virtio_drivers_and_devic.Queue.Descriptor.{Descriptor, zeroed}
use virtio_drivers_and_devic.Queue.State.{VirtQueue, can_pop}
use virtio_drivers_and_devic.Queue.Chain.{at, Linked}
use virtio_drivers_and_devic.Queue.Valid.{IsValid}
use virtio_drivers_and_devic.Queue.Layout.{
  VirtQueueLayout, legacy, modern, is_power_below, is_power_of_two, descriptors_paddr,
  descriptors_vaddr, driver_area_paddr, avail_vaddr, device_area_paddr, used_vaddr,
}
use virtio_drivers_and_devic.Queue.Layout.Regions.{
  Placed, Got, AllGot, power_small, allocate_legacy-Got, allocate_flexible-Got,
}
use virtio_drivers_and_devic.Queue.New.{
  link_from, link_table, size_ok, World, allocate, set_up, new, zeroed_avail, zeroed_used,
}

-- the `n` numbers from `i` on
abbrev pub numbers : ℕ → ℕ → List ℕ
numbers i zero = []
numbers i (suc n) = i ∷ numbers (i + 1) n

length-numbers : (n i : ℕ) → length (numbers i n) ≡ n
length-numbers zero i = refl
length-numbers (suc n) i = ap suc (length-numbers n (i + 1))

count-numbers : (n i j : ℕ) → count j (numbers i n) ≡ (if leb i j && ltb j (i + n) then 1 else 0)
count-numbers zero i j = ground arith
count-numbers (suc n) i j = ground (arith, count-numbers n (i + 1) j)

length-link_from : (n i : ℕ) (table : List Descriptor) → length (link_from i n table) ≡ length table
unfolding link_from
length-link_from zero i table = refl
length-link_from (suc n) i table = length-link_from n (i + 1) _ ∙ length-set table i _

-- The loop leaves the entries before it alone.
link_from-before :
    (n i : ℕ) (table : List Descriptor) (j : ℕ) → j < i → at (link_from i n table) j ≡ at table j
unfolding link_from
link_from-before zero i table j h = refl
link_from-before (suc n) i table j h =
    link_from-before n (i + 1) _ j (omega arith) ∙ get_or-set_ne table i j _ zeroed (omega arith)

-- It links each of the others to the one behind it.
link_from-next :
    (n i : ℕ) (table : List Descriptor) (j : ℕ)
    → i ≤ j
    → j < i + n
    → j < length table
    → (at (link_from i n table) j).next ≡ j + 1
unfolding link_from
link_from-next zero i table j h k l = absurd (omega arith)
link_from-next (suc n) i table j h k l = elim (Bool-cases (j == i)) [
  | inl e ↦ rw (==→eq j i e) (
      ap (λ (d : Descriptor). d.next)
        (link_from-before n (i + 1) _ i (omega arith)
          ∙ get_or-set_self table i _ zeroed (omega (arith, ==→eq j i e))))
  | inr ne ↦
      link_from-next n (i + 1) _ j (omega (arith, ne_of_== j i ne)) (omega arith)
        (omega (arith, length-set table i (record (get_or table i zeroed) { next = i + 1 })))
]

-- A table whose entries are linked one to the next is a free list.
Linked-numbers :
    (n i : ℕ) (ds : List Descriptor)
    → ((j : ℕ) → j + 1 < length ds → (at ds j).next ≡ j + 1)
    → i + n ≡ length ds
    → Linked ds i (numbers i n)
Linked-numbers zero i ds next h = tt
Linked-numbers (suc zero) i ds next h = (refl, omega arith, tt)
Linked-numbers (suc (suc n)) i ds next h = (
  refl,
  omega arith,
  rw (next i (omega arith)) (Linked-numbers (suc n) (i + 1) ds next (omega arith)),
)

link_table-Linked : (size : ℕ) → Linked (link_table size) 0 (numbers 0 size)
link_table-Linked size =
    let long =
      length-link_from (size - 1) 0 (replicate size zeroed) ∙ length-replicate size zeroed in
    Linked-numbers size 0 (link_table size)
      (λ j h.
        link_from-next (size - 1) 0 (replicate size zeroed) j (omega arith) (omega (arith, long))
          (omega (arith, long, length-replicate size zeroed)))
      (omega (arith, long))

-- the queue that `new` returns
abbrev pub fresh : ℕ → ℕ → Bool → Bool → VirtQueue
fresh size idx indirect event_idx = record {
  size = size;
  desc = link_table size;
  avail = zeroed_avail size;
  used = zeroed_used size;
  queue_idx = idx;
  num_used = 0;
  free_head = 0;
  desc_shadow = link_table size;
  avail_idx = 0;
  last_used_idx = 0;
  event_idx = event_idx;
  indirect = indirect;
  indirect_lists = replicate size none;
}

-- the width of a power of 2
power_width : (bits n : ℕ) → is_power_below bits n ≡ true → (width : ℕ) × (n ≡ 2 ^ width)
power_width zero n h = absurd (ground arith)
power_width (suc bits) n h = elim (Bool-cases (n == 2 ^ bits)) [
  | inl e ↦ (bits, ==→eq n (2 ^ bits) e)
  | inr ne ↦ power_width bits n (rw ne at h)
]

fresh-IsValid :
    (size idx : ℕ) (event_idx : Bool)
    → is_power_of_two size ≡ true
    → IsValid (fresh size idx false event_idx) (numbers 0 size) []
fresh-IsValid size idx event_idx h =
    let (width, e) = power_width 16 size h in
    let long =
      length-link_from (size - 1) 0 (replicate size zeroed) ∙ length-replicate size zeroed in
    record {
      width = width;
      size_pow = e;
      size_small = (power_small 16 size h).1;
      shadow_length = long;
      desc_length = long;
      avail_length = length-replicate size 0;
      used_length = length-replicate size (record { id = 0; len = 0 });
      direct = refl;
      free_linked = link_table-Linked size;
      owned = λ j. ground (arith, count-numbers size 0 j);
      counted = omega (arith, length-numbers size 0);
      in_use = refl;
      posted = tt;
    }

-- What is asked of `dma_alloc`: the pages that it returns lie within the address space.
pub record Addressable (H : Hal) : Type 0 where
  pub inside :
      (n : ℕ) (direction : BufferDirection) (s : H.State) (paddr vaddr : ℕ)
      → (H.dma_alloc n direction s).0 ≡ (paddr, vaddr)
      → (paddr == 0) ≡ false
      → (paddr + n * page_size ≤ 2 ^ 64) × (vaddr + n * page_size ≤ 2 ^ 64)

-- a region within the address space
abbrev Reachable : Dma → Type 0
Reachable dma =
    (dma.paddr + dma.pages * page_size ≤ 2 ^ 64) × (dma.vaddr + dma.pages * page_size ≤ 2 ^ 64)

abbrev AllReachable : VirtQueueLayout → Type 0
AllReachable (legacy dma a u) = Reachable dma
AllReachable (modern drv dev a) = Reachable drv × Reachable dev

Got-Reachable : (H : Hal) (dma : Dma) → Addressable H → Got H dma → Reachable dma
Got-Reachable H dma known (direction, s, paddr, vaddr, e, p, v, there) =
    let (a, b) = known.inside dma.pages direction s paddr vaddr e there in
    (omega (arith, p), omega (arith, v))

AllGot-AllReachable : (H : Hal) (l : VirtQueueLayout) → Addressable H → AllGot H l → AllReachable l
AllGot-AllReachable H (legacy dma a u) known g = Got-Reachable H dma known g
AllGot-AllReachable H (modern drv dev a) known (g, h) =
    (Got-Reachable H drv known g, Got-Reachable H dev known h)

vaddr_inside :
    (dma : Dma) (offset : ℕ)
    → Reachable dma
    → offset < dma.pages * page_size
    → dma_vaddr dma offset ≡ some (dma.vaddr + offset)
unfolding dma_vaddr
vaddr_inside dma offset r h = ground arith

paddr_inside :
    (dma : Dma) (offset : ℕ)
    → Reachable dma
    → offset < dma.pages * page_size
    → usize_sum dma.paddr offset ≡ some (dma.paddr + offset)
paddr_inside dma offset r h = ground arith

-- the addresses that the transport is told
abbrev pub Told : VirtQueueLayout → ℕ → ℕ → ℕ → Type 0
Told (legacy dma avail used) desc driver_area device_area =
    (desc ≡ dma.paddr) × (driver_area ≡ dma.paddr + avail) × (device_area ≡ dma.paddr + used)
Told (modern drv dev avail) desc driver_area device_area =
    (desc ≡ drv.paddr) × (driver_area ≡ drv.paddr + avail) × (device_area ≡ dev.paddr)

-- The three parts of a placed layout have addresses.
Placed-addrs :
    (n : ℕ) (l : VirtQueueLayout)
    → 0 < n
    → AllReachable l
    → Placed n l
    → (desc avail used driver_area device_area : ℕ) × (descriptors_vaddr l ≡ some desc)
      × (avail_vaddr l ≡ some avail)
      × (used_vaddr l ≡ some used)
      × (driver_area_paddr l ≡ some driver_area)
      × (device_area_paddr l ≡ some device_area)
      × Told l (descriptors_paddr l) driver_area device_area
unfolding descriptors_vaddr avail_vaddr used_vaddr driver_area_paddr device_area_paddr
    descriptors_paddr
Placed-addrs n (legacy dma a u) h r (p₁, p₂, p₃, p₄, p₅) = (
  dma.vaddr + 0,
  dma.vaddr + a,
  dma.vaddr + u,
  dma.paddr + a,
  dma.paddr + u,
  vaddr_inside dma 0 r (omega arith),
  vaddr_inside dma a r (omega arith),
  vaddr_inside dma u r (omega arith),
  paddr_inside dma a r (omega arith),
  paddr_inside dma u r (omega arith),
  (refl, refl, refl),
)
Placed-addrs n (modern drv dev a) h (r, r') (p₁, p₂, p₃, p₄) = (
  drv.vaddr + 0,
  drv.vaddr + a,
  dev.vaddr + 0,
  drv.paddr + a,
  dev.paddr,
  vaddr_inside drv 0 r (omega arith),
  vaddr_inside drv a r (omega arith),
  vaddr_inside dev 0 r' (omega arith),
  paddr_inside drv a r (omega arith),
  refl,
  (refl, refl, refl),
)

module _ (H : Hal) (T : Transport) where
  -- The four ways in which `new` can end, each with the condition under which it does: the queue is
  -- in use, or the device allows fewer entries, or there is no memory; otherwise the queue is
  -- well formed and all free, and the transport has the addresses of the layout that was allocated,
  -- in which all parts are placed.
  abbrev pub NewOutcome : ℕ → ℕ → Bool → H.State → T.State → Run (World H T) VirtQueue → Type 0
  NewOutcome size idx event_idx s t result =
      let (in_use, t₁) = T.queue_used idx t in
      let (max_size, t₂) = T.max_queue_size idx t₁ in
      ((in_use ≡ true) × (result ≡ err already_used (s, t₁)))
      ⊎ (((in_use ≡ false) × (max_size < size) × (result ≡ err invalid_param (s, t₂)))
          ⊎ ((in_use ≡ false)
              × (size ≤ max_size)
              × (((s' : H.State) × (result ≡ err dma_error (s', t₂)))
                  ⊎ ((l : VirtQueueLayout) × (s' : H.State) × (q : VirtQueue) × (desc driver_area
                        device_area : ℕ)
                      × (allocate H T size (s, t₂) ≡ ok l (s', t₂))
                      × Placed size l
                      × AllGot H l
                      × Told l desc driver_area device_area
                      × (result ≡ ok q (s', T.queue_set idx size desc driver_area device_area t₂))
                      × IsValid q (numbers 0 size) []
                      × (q.event_idx ≡ event_idx)
                      × (can_pop q ≡ false)))))

  set_up-fresh :
      (size idx : ℕ) (event_idx : Bool) (l : VirtQueueLayout) (s : H.State) (t : T.State)
      → 0 < size
      → AllReachable l
      → Placed size l
      → (driver_area device_area : ℕ) × (set_up H T size idx false event_idx l (s, t)
          ≡ ok
              (fresh size idx false event_idx)
              (s, T.queue_set idx size (descriptors_paddr l) driver_area device_area t))
        × Told l (descriptors_paddr l) driver_area device_area
  unfolding set_up
  set_up-fresh size idx event_idx l s t h r p =
      let (desc, avail, used, driver_area, device_area, e₁, e₂, e₃, e₄, e₅, told) =
        Placed-addrs size l h r p in
      (driver_area, device_area, rw (e₄, e₅, e₁, e₂, e₃, enough) refl, told)
    where
      enough : leb 1 size ≡ true
      enough = ground arith

  allocate-Placed :
      (size : ℕ) (s : H.State) (t : T.State)
      → is_power_of_two size ≡ true
      → ((paddr vaddr k : ℕ) (u : H.State) → (H.dma_dealloc paddr vaddr k u).0 ≡ 0)
      → ((s' : H.State) × (allocate H T size (s, t) ≡ err dma_error (s', t)))
        ⊎ ((l : VirtQueueLayout) × (s' : H.State) × (allocate H T size (s, t) ≡ ok l (s', t))
            × Placed size l
            × AllGot H l)
  allocate-Placed size s t h drops = elim (Bool-cases (T.requires_legacy_layout t)) [
    | inl old ↦ elim (allocate_legacy-Got H size s h) [
      | inl (s', e) ↦ inl (s', rw (old, e) refl)
      | inr (l, s', e, (p, got)) ↦ inr (l, s', rw (old, e) refl, p, got)
    ]
    | inr recent ↦ elim (allocate_flexible-Got H size s h drops) [
      | inl (s', e) ↦ inl (s', rw (recent, e) refl)
      | inr (l, s', e, (p, got)) ↦ inr (l, s', rw (recent, e) refl, p, got)
    ]
  ]

  -- For a size that is a power of 2, without indirect descriptors, and where `dma_dealloc` always
  -- succeeds and `dma_alloc` returns pages within the address space, `new` never panics: it ends in
  -- one of the ways of `NewOutcome`.
  pub new-NewOutcome :
      (size idx : ℕ) (event_idx : Bool) (s : H.State) (t : T.State)
      → is_power_of_two size ≡ true
      → ((paddr vaddr k : ℕ) (u : H.State) → (H.dma_dealloc paddr vaddr k u).0 ≡ 0)
      → Addressable H
      → NewOutcome size idx event_idx s t (new H T size idx false event_idx (s, t))
  unfolding new can_pop
  new-NewOutcome size idx event_idx s t h drops known = elim (Bool-cases used.0) [
    | inl busy ↦ inl (busy, rw (small, busy) refl)
    | inr idle ↦ elim (Bool-cases (ltb max.0 size)) [
      | inl less ↦ inr (inl (idle, ground arith, rw (small, idle, less) refl))
      | inr room ↦ elim (allocate-Placed size s max.1 h drops) [
        | inl (s', e) ↦ inr (inr (idle, ground arith, inl (s', rw (small, idle, room, e) refl)))
        | inr (l, s', e, p, got) ↦
            let (driver_area, device_area, is, told) =
              set_up-fresh size idx event_idx l s' max.1 (power_small 16 size h).0
                (AllGot-AllReachable H l known got) p in
            inr (
              inr (
                idle,
                ground arith,
                inr (
                  l,
                  s',
                  fresh size idx false event_idx,
                  descriptors_paddr l,
                  driver_area,
                  device_area,
                  e,
                  p,
                  got,
                  told,
                  rw (small, idle, room, e) is,
                  fresh-IsValid size idx event_idx h,
                  refl,
                  refl,
                ),
              ))
      ]
    ]
  ]
    where
      used : Bool × T.State
      used = T.queue_used idx t

      max : ℕ × T.State
      max = T.max_queue_size idx used.1

      small : size_ok size ≡ true
      small = rw h (below (power_small 16 size h).1)
        where
          below : size < 2 ^ 16 → ltb size (2 ^ 16) ≡ true
          below k = ground arith
