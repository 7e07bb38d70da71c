-- ===== src/Transport/Pci/Cam.antt =====
-- The configuration access mechanisms of src/transport/pci/bus.rs.
use virtio_drivers_and_devic.Prelude.{
  ℕ, ◌+◌, ◌*◌, ◌%◌, ◌^◌, ◌<◌, ◌≡◌, ◌==◌, ◌&&◌, sym, ap, ◌∙◌, arith, ltb, if◌then◌else◌, bit_and,
  true, Option, some, none,
}
use Prim.Native.Nat.{bit_or}
use virtio_drivers_and_devic.Prelude.Bits.{bit_and-mask}
use virtio_drivers_and_devic.Prelude.Disjoint.{bit_or-shift}
use virtio_drivers_and_devic.Transport.Pci.{DeviceFunction, valid}

-- `Cam`
pub data Cam : Type 0 where
  mmio_cam ecam : Cam

-- `Cam::size`
abbrev pub size : Cam → ℕ
size mmio_cam = 16777216
size ecam = 268435456

-- the `match` in `cam_offset`
abbrev pub register_width : Cam → ℕ
register_width mmio_cam = 8
register_width ecam = 12

-- the number of a function on all buses
abbrev pub bdf : DeviceFunction → ℕ
bdf f = bit_or (bit_or (f.bus * 2 ^ 8) (f.device * 2 ^ 3)) f.function

-- the two last assertions of `cam_offset`
abbrev pub checked : Cam → ℕ → Option ℕ
checked cam address =
    if ltb address (size cam) && (bit_and address 3 == 0) then some address else none

-- `Cam::cam_offset`; `none` is a failed assertion
unfoldable pub cam_offset : Cam → DeviceFunction → ℕ → Option ℕ
cam_offset cam f register_offset =
    if valid f then checked cam (bit_or (bdf f * 2 ^ register_width cam) register_offset) else none

-- a function that exists, and a word in its configuration space
pub record IsRegister (f : DeviceFunction) (register : ℕ) : Type 0 where
  pub bus : f.bus < 256
  pub device : f.device < 32
  pub function : f.function < 8
  pub byte : register < 256
  pub aligned : register % 4 ≡ 0

-- the place of a word, counted
abbrev pub place : Cam → DeviceFunction → ℕ → ℕ
place cam f register =
    ((f.bus * 32 + f.device) * 8 + f.function) * 2 ^ register_width cam + register

bdf_lem :
    (f : DeviceFunction) (register : ℕ)
    → IsRegister f register
    → bdf f ≡ (f.bus * 32 + f.device) * 8 + f.function
bdf_lem f register r =
    ap (λ n. bit_or n f.function)
      (bit_or-shift 8 f.bus (f.device * 2 ^ 3) (omega (arith, r.device)) ∙ omega arith)
    ∙ bit_or-shift 3 (f.bus * 32 + f.device) f.function r.function

or_place :
    (cam : Cam) (f : DeviceFunction) (register : ℕ)
    → IsRegister f register
    → bit_or (bdf f * 2 ^ register_width cam) register ≡ place cam f register
or_place mmio_cam f register r = rw (bdf_lem f register r) (bit_or-shift 8 _ register r.byte)
or_place ecam f register r =
    rw (bdf_lem f register r) (bit_or-shift 12 _ register (omega (arith, r.byte)))

place-checked :
    (cam : Cam) (f : DeviceFunction) (register : ℕ)
    → IsRegister f register
    → checked cam (place cam f register) ≡ some (place cam f register)
place-checked mmio_cam f register r = ground (
  arith,
  r.bus,
  r.device,
  r.function,
  r.byte,
  r.aligned,
  bit_and-mask 2 (place mmio_cam f register),
)
place-checked ecam f register r =
    ground (
      arith,
      r.bus,
      r.device,
      r.function,
      r.byte,
      r.aligned,
      bit_and-mask 2 (place ecam f register),
    )

valid_lem : (f : DeviceFunction) (register : ℕ) → IsRegister f register → valid f ≡ true
valid_lem f register r = ground (arith, r.device, r.function)

-- For a function that exists and an aligned word of its first 256 bytes, no assertion of
-- `cam_offset` fails, and it is the place of that word when the functions of all buses lie one
-- after the other.
pub cam_offset-place :
    (cam : Cam) (f : DeviceFunction) (register : ℕ)
    → IsRegister f register
    → cam_offset cam f register ≡ some (place cam f register)
unfolding cam_offset
cam_offset-place cam f register r =
    rw (valid_lem f register r)
      (ap (checked cam) (or_place cam f register r) ∙ place-checked cam f register r)

place_inj :
    (cam : Cam) (f g : DeviceFunction) (a b : ℕ)
    → IsRegister f a
    → IsRegister g b
    → place cam f a ≡ place cam g b
    → (f.bus ≡ g.bus) × (f.device ≡ g.device) × (f.function ≡ g.function) × (a ≡ b)
place_inj mmio_cam f g a b r q e = (
  omega (arith, r.device, r.function, r.byte, q.device, q.function, q.byte),
  omega (arith, r.device, r.function, r.byte, q.device, q.function, q.byte),
  omega (arith, r.device, r.function, r.byte, q.device, q.function, q.byte),
  omega (arith, r.byte, q.byte),
)
place_inj ecam f g a b r q e = (
  omega (arith, r.device, r.function, r.byte, q.device, q.function, q.byte),
  omega (arith, r.device, r.function, r.byte, q.device, q.function, q.byte),
  omega (arith, r.device, r.function, r.byte, q.device, q.function, q.byte),
  omega (arith, r.byte, q.byte),
)

some_inj : (a b : ℕ) → some a ≡ some b → a ≡ b
some_inj a b e = cc

-- No two words share an offset: functions that exist, and aligned words of their first 256 bytes,
-- with the same offset are the same.
pub cam_offset_inj :
    (cam : Cam) (f g : DeviceFunction) (a b : ℕ)
    → IsRegister f a
    → IsRegister g b
    → cam_offset cam f a ≡ cam_offset cam g b
    → (f.bus ≡ g.bus) × (f.device ≡ g.device) × (f.function ≡ g.function) × (a ≡ b)
cam_offset_inj cam f g a b r q e =
    place_inj cam f g a b r q
      (some_inj _ _ (sym (cam_offset-place cam f a r) ∙ e ∙ cam_offset-place cam g b q))
