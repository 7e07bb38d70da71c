-- ===== src/Queue/Owning/Stocked.antt =====
-- When all buffers of an owning queue (src/queue/owning.rs) are in flight, each under its own
-- index.
use virtio_drivers_and_devic.Prelude.{
  ℕ, zero, suc, ◌+◌, ◌^◌, ◌≤◌, ◌≡◌, ◌≢◌, ◌<◌, ◌==◌, refl, sym, ap, ◌∙◌, arith, inl, inr, Bool-cases,
  List, [], ◌∷◌, ◌++◌, length, get_or, count, count-append, length-append, ==→eq, ne_of_==,
}
use virtio_drivers_and_devic.Error.{ok}
use virtio_drivers_and_devic.Hal.{Hal, device_to_driver}
use virtio_drivers_and_devic.Queue.Descriptor.{Request, input_output_iter}
use virtio_drivers_and_devic.Queue.State.{Driver, available_desc}
use virtio_drivers_and_devic.Queue.Chain.{Item, slots}
use virtio_drivers_and_devic.Queue.Valid.{IsValid, Flight, chain, token, flight_slots}
use virtio_drivers_and_devic.Queue.Add.{add}
use virtio_drivers_and_devic.Queue.Add.Correct.{add-Added}
use virtio_drivers_and_devic.Queue.Pop.Loop.{requests}

-- the request for a buffer that the device writes
abbrev pub stock_request : ℕ → ℕ → Request
stock_request buffer_size ptr = record {
  buffer = record { ptr = ptr; len = buffer_size };
  direction = device_to_driver;
}

-- a flight of one buffer, that of its index
pub record Owned (buffer_size : ℕ) (buffers : List ℕ) (f : Flight) : Type 0 where
  pub alone : f.others ≡ []
  pub inside : token f < length buffers
  pub request : f.first.request ≡ stock_request buffer_size (get_or buffers (token f) 0)

abbrev pub AllOwned : ℕ → List ℕ → List Flight → Type 0
AllOwned buffer_size buffers [] = Unit
AllOwned buffer_size buffers (f ∷ fs) =
    Owned buffer_size buffers f × AllOwned buffer_size buffers fs

get_or-append : (xs ys : List ℕ) (i : ℕ) → i < length xs → get_or (xs ++ ys) i 0 ≡ get_or xs i 0
get_or-append [] ys i h = absurd (omega arith)
get_or-append (x ∷ xs) ys zero h = refl
get_or-append (x ∷ xs) ys (suc i) h = get_or-append xs ys i (omega arith)

pub get_or-last : (xs : List ℕ) (y : ℕ) → get_or (xs ++ (y ∷ [])) (length xs) 0 ≡ y
get_or-last [] y = refl
get_or-last (x ∷ xs) y = get_or-last xs y

-- More buffers do not matter.
pub AllOwned-more :
    (buffer_size : ℕ) (buffers more : List ℕ) (fs : List Flight)
    → AllOwned buffer_size buffers fs
    → AllOwned buffer_size (buffers ++ more) fs
AllOwned-more buffer_size buffers more [] a = tt
AllOwned-more buffer_size buffers more (f ∷ fs) (o, a) = (
  record {
    alone = o.alone;
    inside = omega (arith, o.inside, length-append buffers more);
    request =
        o.request
        ∙ ap (stock_request buffer_size) (sym (get_or-append buffers more (token f) o.inside));
  },
  AllOwned-more buffer_size buffers more fs a,
)

module _ (buffer_size : ℕ) (buffers : List ℕ) where
  -- All but one are owned, and that one is.
  pub AllOwned-without :
      (before : List Flight) (f : Flight) (after : List Flight)
      → AllOwned buffer_size buffers (before ++ (f ∷ after))
      → Owned buffer_size buffers f × AllOwned buffer_size buffers (before ++ after)
  AllOwned-without [] f after a = a
  AllOwned-without (g ∷ gs) f after (o, a) =
      let (here, rest) = AllOwned-without gs f after a in (here, (o, rest))

  pub slots-Owned : (f : Flight) → Owned buffer_size buffers f → slots (chain f) ≡ token f ∷ []
  slots-Owned f o = ap (λ xs. f.first.slot ∷ slots xs) o.alone

  pub requests-Owned :
      (f : Flight)
      → Owned buffer_size buffers f
      → requests (chain f) ≡ stock_request buffer_size (get_or buffers (token f) 0) ∷ []
  requests-Owned f o = ap (λ xs. f.first.request ∷ requests xs) o.alone ∙ ap (λ r. r ∷ []) o.request

  -- A slot that is in use is that of a flight.
  pub flight_in :
      (fs : List Flight) (i : ℕ)
      → AllOwned buffer_size buffers fs
      → count i (flight_slots fs) ≢ 0
      → (before : List Flight) × (f : Flight) × (after : List Flight) × (fs ≡ before ++ (f ∷ after))
        × (token f ≡ i)
  flight_in [] i a h = absurd (h refl)
  flight_in (f ∷ fs) i (o, a) h = elim (Bool-cases (token f == i)) [
    | inl same ↦ ([], f, fs, refl, ==→eq _ _ same)
    | inr other ↦
        let (before, g, after, e, is) = flight_in fs i a (λ none_left. h (
          count-append i (slots (chain f)) (flight_slots fs)
          ∙ ap (λ xs. count i xs + count i (flight_slots fs)) (slots-Owned f o)
          ∙ ground (arith, none_left, ne_of_== _ _ other))) in
        (f ∷ before, g, after, ap (λ xs. f ∷ xs) e, is)
  ]

cons_inj {ℓ} : {A : Type ℓ} (x y : A) (xs ys : List A) → (x ∷ xs) ≡ (y ∷ ys) → (x ≡ y) × (xs ≡ ys)
cons_inj x y xs ys e = (cc, cc)

module _ (H : Hal) (buffer_size : ℕ) (positive : 0 < buffer_size)
    (small : buffer_size < 2 ^ 32) where
  -- There is room for it.
  room :
      (d : Driver H.State) (i : ℕ) (free : List ℕ) (flights : List Flight)
      → IsValid d.queue (i ∷ free) flights
      → 1 ≤ available_desc d.queue
  unfolding available_desc
  room d i free flights v = ground (arith, v.counted, v.direct)

  -- One more buffer in the first free slot, which is that of its index.
  pub add-Owned :
      (d : Driver H.State) (i : ℕ) (free : List ℕ) (flights : List Flight) (buffers : List ℕ)
      (ptr : ℕ)
      → IsValid d.queue (i ∷ free) flights
      → AllOwned buffer_size buffers flights
      → i < length buffers
      → get_or buffers i 0 ≡ ptr
      → (d' : Driver H.State) × (f : Flight) × (add H []
            (record { ptr = ptr; len = buffer_size } ∷ [])
            d
          ≡ ok i d')
        × IsValid d'.queue free (f ∷ flights)
        × AllOwned buffer_size buffers (f ∷ flights)
        × (d'.queue.size ≡ d.queue.size)
  unfolding input_output_iter
  add-Owned d i free flights buffers ptr v a h e =
      let (d', f, is, added) =
        add-Added H [] (record { ptr = ptr; len = buffer_size } ∷ []) d (i ∷ free) flights v
          (record { nonempty = omega (arith, positive); small = small; one_way = ground arith }, tt)
          (omega arith) (room d i free flights v) in
      let (first, others) = cons_inj f.first _ f.others _ added.chain_items in
      let slot = ap (λ (x : Item). x.slot) first in
      (
        d',
        f,
        is ∙ ap (λ n. ok n d') slot,
        added.valid,
        (
          record {
            alone = others;
            inside = omega (arith, slot, h);
            request =
                ap (λ (x : Item). x.request) first
                ∙ ap (stock_request buffer_size) (sym e ∙ ap (λ n. get_or buffers n 0) (sym slot));
          },
          a,
        ),
        added.same_size,
      )
