-- ===== src/Queue/Descriptor.antt =====
-- `Descriptor`, `DescFlags` and `InputOutputIter` of src/queue.rs.
use Prim.Native.Nat.{bit_or}
use virtio_drivers_and_devic.Prelude.{
  ℕ, ◌-◌, ◌^◌, ◌==◌, bit_and, Bool, Option, none, some, List, [], ◌∷◌, ltb, if◌then◌else◌,
}
use virtio_drivers_and_devic.Hal.{
  Hal, Buffer, BufferDirection, driver_to_device, device_to_driver, both,
}

-- `DescFlags`: the bits of a `u16`
abbrev pub DescFlags : Type 0
DescFlags = ℕ

abbrev pub next_flag : DescFlags
next_flag = 1

abbrev pub write_flag : DescFlags
write_flag = 2

abbrev pub indirect_flag : DescFlags
indirect_flag = 4

-- `flags.contains(flag)`, `flags | flag` and `flags.remove(flag)` of `bitflags`
abbrev pub contains : DescFlags → DescFlags → Bool
contains flags flag = bit_and flags flag == flag

abbrev pub union : DescFlags → DescFlags → DescFlags
union flags flag = bit_or flags flag

abbrev pub remove : DescFlags → DescFlags → DescFlags
remove flags flag = bit_and flags (2 ^ 16 - 1 - flag)

-- `Descriptor`
pub record Descriptor : Type 0 where
  pub addr : ℕ
  pub len : ℕ
  pub flags : DescFlags
  pub next : ℕ

-- `FromZeros::new_zeroed`
abbrev pub zeroed : Descriptor
zeroed = record { addr = 0; len = 0; flags = 0; next = 0 }

-- `size_of::<Descriptor>()`
abbrev pub size_of_descriptor : ℕ
size_of_descriptor = 16

-- a buffer of a request with the direction in which it is shared
pub record Request : Type 0 where
  pub buffer : Buffer
  pub direction : BufferDirection

-- the `match` on the direction in `set_buf`, which panics at `Both`
abbrev pub direction_flag : BufferDirection → Option DescFlags
direction_flag device_to_driver = some write_flag
direction_flag driver_to_device = some 0
direction_flag both = none

module _ (H : Hal) where
  -- `Descriptor::set_buf`; `none` is a panic
  unfoldable pub set_buf :
      Descriptor → Request → DescFlags → H.State → Option (Descriptor × H.State)
  set_buf d r extra s =
      let (paddr, s') = H.share r.buffer r.direction s in
      if ltb r.buffer.len (2 ^ 32)
      then elim (direction_flag r.direction) [
        | none ↦ none
        | some flag ↦
            some (record d { addr = paddr; len = r.buffer.len; flags = union extra flag }, s')
      ]
      else none

-- `Descriptor::unset_buf`
unfoldable pub unset_buf : Descriptor → Descriptor
unset_buf d = record d { addr = 0; len = 0 }

-- `Descriptor::next`
unfoldable pub next_of : Descriptor → Option ℕ
next_of d = if contains d.flags next_flag then some d.next else none

-- `InputOutputIter`: the inputs, then the outputs
unfoldable pub input_output_iter : List Buffer → List Buffer → List Request
input_output_iter (input ∷ inputs) outputs =
    record { buffer = input; direction = driver_to_device } ∷ input_output_iter inputs outputs
input_output_iter [] (output ∷ outputs) =
    record { buffer = output; direction = device_to_driver } ∷ input_output_iter [] outputs
input_output_iter [] [] = []
