-- ===== src/Transport/Pci/Devices.antt =====
-- The enumeration of a PCI bus in src/transport/pci/bus.rs.
use virtio_drivers_and_devic.Prelude.{
  ℕ, zero, suc, ◌+◌, ◌/◌, ◌%◌, ◌^◌, ◌<◌, ◌≡◌, ◌⊎◌, inl, inr, ◌==◌, refl, sym, ap, ap₂, ◌∙◌, arith,
  ltb, leb, if◌then◌else◌, true, false, Bool-cases, bit_and, Option, some, none, List, [], ◌∷◌,
}
use virtio_drivers_and_devic.Transport.Pci.{DeviceFunction, ConfigurationAccess}

-- `HeaderType`
pub data HeaderType : Type 0 where
  standard pci_pci_bridge pci_cardbus_bridge : HeaderType
  unrecognised : ℕ → HeaderType

-- `From<u8>` of `HeaderType`
abbrev pub header_type_of : ℕ → HeaderType
header_type_of value =
    if value == 0
    then standard
    else if value == 1
    then pci_pci_bridge
    else if value == 2
    then pci_cardbus_bridge
    else unrecognised value

-- `DeviceFunctionInfo`
pub record DeviceFunctionInfo : Type 0 where
  pub vendor_id : ℕ
  pub device_id : ℕ
  pub class : ℕ
  pub subclass : ℕ
  pub prog_if : ℕ
  pub revision : ℕ
  pub header_type : HeaderType

-- `INVALID_READ`, `MAX_DEVICES` and `MAX_FUNCTIONS`
abbrev pub invalid_read : ℕ
invalid_read = 4294967295

abbrev pub max_devices : ℕ
max_devices = 32

abbrev pub max_functions : ℕ
max_functions = 8

abbrev pub Item : Type 0
Item = DeviceFunction × DeviceFunctionInfo

-- the next device or function
abbrev pub advance : DeviceFunction → DeviceFunction
advance f =
    if leb max_functions (f.function + 1)
    then record f { device = f.device + 1; function = 0 }
    else record f { function = f.function + 1 }

module _ (C : ConfigurationAccess) (s : C.State) where
  -- the information on a function, from its registers
  abbrev pub info_of : DeviceFunction → ℕ → DeviceFunctionInfo
  info_of f device_vendor =
      let class_revision = C.read_word f 8 s in
      let bist_type_latency_cache = C.read_word f 12 s in
      record {
        vendor_id = device_vendor % 2 ^ 16;
        device_id = device_vendor / 2 ^ 16 % 2 ^ 16;
        class = class_revision / 2 ^ 24 % 2 ^ 8;
        subclass = class_revision / 2 ^ 16 % 2 ^ 8;
        prog_if = class_revision / 2 ^ 8 % 2 ^ 8;
        revision = class_revision % 2 ^ 8;
        header_type = header_type_of (bit_and (bist_type_latency_cache / 2 ^ 16 % 2 ^ 8) 127);
      }

  -- `BusDeviceIterator::next`, with fuel for its loop: the item, and the function to go on with
  unfoldable pub next : ℕ → DeviceFunction → Option Item × DeviceFunction
  next zero f = (none, f)
  next (suc fuel) f =
      let rest = next fuel (advance f) in
      if ltb f.device max_devices
      then (if C.read_word f 0 s == invalid_read
          then rest
          else (some (f, info_of f (C.read_word f 0 s)), advance f))
      else (none, f)

  abbrev pub yielded : Option Item → DeviceFunction → (DeviceFunction → List Item) → List Item
  yielded none f later = []
  yielded (some item) f later = item ∷ later f

  -- `for item in bus`: the items until there is none, each with the given fuel
  abbrev pub collect :
      ℕ → (DeviceFunction → Option Item × DeviceFunction) → DeviceFunction → List Item
  collect zero step f = []
  collect (suc n) step f = yielded (step f).0 (step f).1 (collect n step)

  -- `enumerate_bus`, as the list of what its iterator yields
  unfoldable pub enumerate_bus : ℕ → List Item
  unfolding next
  enumerate_bus bus = collect 257 (next 257) (record { bus = bus; device = 0; function = 0 })

  -- The specification: of the functions of a bus, in order, those that answer.
  abbrev pub function_at : ℕ → ℕ → DeviceFunction
  function_at bus p = record { bus = bus; device = p / 8; function = p % 8 }

  abbrev pub if_answers : DeviceFunction → List Item → List Item
  if_answers f rest =
      if C.read_word f 0 s == invalid_read then rest else (f, info_of f (C.read_word f 0 s)) ∷ rest

  -- the answers of `n` functions from the place `p` on
  abbrev pub answers : ℕ → ℕ → ℕ → List Item
  answers bus p zero = []
  answers bus p (suc n) = if_answers (function_at bus p) (answers bus (p + 1) n)

  advance-function_at : (bus p : ℕ) → advance (function_at bus p) ≡ function_at bus (p + 1)
  advance-function_at bus p = elim (Bool-cases (leb max_functions (p % 8 + 1))) [
    | inl last ↦ rw last (
        ap₂ (λ (d f : ℕ). record { bus = bus; device = d; function = f }) (device last)
          (function last))
    | inr more ↦ rw more (
        ap₂ (λ (d f : ℕ). record { bus = bus; device = d; function = f }) (device_kept more)
          (function_next more))
  ]
    where
      device : leb max_functions (p % 8 + 1) ≡ true → p / 8 + 1 ≡ (p + 1) / 8
      device h = ground arith

      function : leb max_functions (p % 8 + 1) ≡ true → 0 ≡ (p + 1) % 8
      function h = ground arith

      device_kept : leb max_functions (p % 8 + 1) ≡ false → p / 8 ≡ (p + 1) / 8
      device_kept h = ground arith

      function_next : leb max_functions (p % 8 + 1) ≡ false → p % 8 + 1 ≡ (p + 1) % 8
      function_next h = ground arith

  -- what `next` does at the place `p`, with `n` functions to go
  abbrev Next : ℕ → ℕ → ℕ → Option Item × DeviceFunction → Type 0
  Next bus p n r =
      ((r.0 ≡ none) × (answers bus p n ≡ []))
      ⊎ ((item : Item) × (q : ℕ) × (m : ℕ) × (q + m ≡ 256)
          × (m < n)
          × (r ≡ (some item, function_at bus q))
          × (answers bus p n ≡ item ∷ answers bus q m))

  next-Next :
      (bus n p fuel : ℕ) → p + n ≡ 256 → n < fuel → Next bus p n (next fuel (function_at bus p))
  unfolding next
  next-Next bus n p zero e h = absurd (omega arith)
  next-Next bus zero p (suc fuel) e h = inl (rw past refl, refl)
    where
      past : ltb (p / 8) max_devices ≡ false
      past = ground arith
  next-Next bus (suc n) p (suc fuel) e h =
      elim (Bool-cases (C.read_word (function_at bus p) 0 s == invalid_read)) [
        | inl silent ↦ elim (next-Next bus n (p + 1) fuel (omega arith) (omega arith)) [
          | inl (none_left, all) ↦
              inl (rw (here, silent, advance-function_at bus p, none_left) refl, rw silent all)
          | inr (item, q, m, sum, less, is, all) ↦ inr (
            item,
            q,
            m,
            sum,
            omega arith,
            rw (here, silent, advance-function_at bus p) is,
            rw silent all,
          )
        ]
        | inr there ↦ inr (
          (function_at bus p, info_of (function_at bus p) (C.read_word (function_at bus p) 0 s)),
          p + 1,
          n,
          omega arith,
          omega arith,
          rw (here, there, advance-function_at bus p) refl,
          rw there refl,
        )
      ]
    where
      here : ltb (p / 8) max_devices ≡ true
      here = ground arith

  collect-answers :
      (bus fuel items n p : ℕ)
      → p + n ≡ 256
      → n < fuel
      → n < items
      → collect items (next fuel) (function_at bus p) ≡ answers bus p n
  collect-answers bus fuel zero n p e h k = absurd (omega arith)
  collect-answers bus fuel (suc items) n p e h k = elim (next-Next bus n p fuel e h) [
    | inl (none_left, all) ↦ rw none_left (sym all)
    | inr (item, q, m, sum, less, is, all) ↦ rw is (
        ap (λ rest. item ∷ rest)
          (collect-answers bus fuel items m q sum (omega arith) (omega arith))
        ∙ sym all)
  ]

-- The iterator over a bus ends, after it has yielded exactly those of the 256 functions of the bus
-- that answer, in order and each once, with what their registers say.
pub enumerate_bus-answers :
    (C : ConfigurationAccess) (s : C.State) (bus : ℕ)
    → enumerate_bus C s bus ≡ answers C s bus 0 256
unfolding enumerate_bus
enumerate_bus-answers C s bus =
    collect-answers C s bus 257 257 256 0 refl (omega arith) (omega arith)
