-- ===== src/Transport/Pci/Bars.antt =====
-- The base address registers (BARs) of a PCI device function in src/transport/pci/bus.rs.
pub mod Sizes
pub mod Scanned
use virtio_drivers_and_devic.Prelude.{
  ℕ, zero, suc, ◌+◌, ◌-◌, ◌*◌, ◌/◌, ◌%◌, ◌^◌, ◌<◌, ◌≤◌, ◌≡◌, ◌⊎◌, inl, inr, ◌==◌, not, refl, sym,
  ap, ◌∙◌, arith, ltb, leb, if◌then◌else◌, Bool, true, false, Bool-cases, bit_and, Option, some,
  none, List, [], ◌∷◌, length, set, replicate, length-set, length-replicate,
}
use Prim.Native.Nat.{bit_or}
use virtio_drivers_and_devic.Error.{Cmd, ok, panic, ◌>>=◌, ◌>>◌, get, put, pure, assert}
use virtio_drivers_and_devic.Transport.Pci.{DeviceFunction, ConfigurationAccess}

-- `MemoryBarType`
pub data MemoryBarType : Type 0 where
  width32 below_1mib width64 : MemoryBarType

-- `From<MemoryBarType>` of `u8`
abbrev pub from_bar_type : MemoryBarType → ℕ
from_bar_type width32 = 0
from_bar_type below_1mib = 1
from_bar_type width64 = 2

-- a result, or the error `PciError::InvalidBarType`
pub data Checked (A : Type 0) : Type 0 where
  valid : A → Checked A
  invalid_bar_type : Checked A

-- `TryFrom<u8>` of `MemoryBarType`
unfoldable pub try_from_bar_type : ℕ → Checked MemoryBarType
try_from_bar_type value =
    if value == 0
    then valid width32
    else if value == 1
    then valid below_1mib
    else if value == 2
    then valid width64
    else invalid_bar_type

-- `BarInfo`
pub data BarInfo : Type 0 where
  memory : MemoryBarType → Bool → ℕ → ℕ → BarInfo
  io : ℕ → ℕ → BarInfo

-- `takes_two_entries`
abbrev pub takes_two_entries : BarInfo → Bool
takes_two_entries (memory width64 prefetchable address size) = true
takes_two_entries _ = false

-- `memory_address_size`
abbrev pub memory_address_size : BarInfo → Option (ℕ × ℕ)
memory_address_size (memory t prefetchable address size) = some (address, size)
memory_address_size (io address size) = none

-- the size that both kinds have
abbrev pub size_of : BarInfo → ℕ
size_of (memory t prefetchable address size) = size
size_of (io address size) = size

-- `BAR0_OFFSET`
abbrev pub bar0_offset : ℕ
bar0_offset = 16

module _ (C : ConfigurationAccess) (f : DeviceFunction) where
  -- the offset of a register; the arithmetic on `u8` panics when it overflows
  abbrev pub register : ℕ → Cmd C.State ℕ
  register bar_index = do
    assert (ltb (bar0_offset + 4 * bar_index) (2 ^ 8))
    pure (bar0_offset + 4 * bar_index)

  abbrev pub read : ℕ → Cmd C.State ℕ
  read offset s = ok (C.read_word f offset s) s

  abbrev pub write : ℕ → ℕ → Cmd C.State (Unit {0})
  write offset data_word s = ok tt (C.write_word f offset data_word s)

  -- `(!(size_mask & 0xfffffff0)).wrapping_add(1)`
  abbrev pub size_from : ℕ → ℕ
  size_from size_mask = (2 ^ 32 - 1 - bit_and size_mask 4294967280 + 1) % 2 ^ 32

  -- the end of `bar_info` for a region of memory
  abbrev pub memory_bar : ℕ → ℕ → ℕ → Checked MemoryBarType → Cmd C.State (Checked BarInfo)
  memory_bar bar_index bar_orig size invalid_bar_type = pure invalid_bar_type
  memory_bar bar_index bar_orig size (valid width64) =
      if leb 5 bar_index then pure invalid_bar_type else do
        offset ← register (bar_index + 1)
        address_top ← read offset
        pure (
            valid (
              memory width64 (not (bit_and bar_orig 8 == 0))
                (bit_or (bit_and bar_orig 4294967280) (address_top * 2 ^ 32)) size))
  memory_bar bar_index bar_orig size (valid address_type) = pure (
      valid
        (memory address_type (not (bit_and bar_orig 8 == 0)) (bit_and bar_orig 4294967280) size))

  -- `bar_info`
  unfoldable pub bar_info : ℕ → Cmd C.State (Checked BarInfo)
  unfolding try_from_bar_type
  bar_info bar_index = do
    offset ← register bar_index
    bar_orig ← read offset
    write offset 4294967295
    size_mask ← read offset
    write offset bar_orig
    if bit_and bar_orig 1 == 1
        then pure (valid (io (bit_and bar_orig 4294967292) (size_from size_mask)))
        else memory_bar bar_index bar_orig (size_from size_mask)
            (try_from_bar_type (bit_and bar_orig 6 / 2))

  abbrev pub Bars : Type 0
  Bars = List (Option BarInfo)

  abbrev pub store_bar :
      ℕ
      → Bars
      → (ℕ → Bars → Cmd C.State (Checked Bars))
      → Checked BarInfo
      → Cmd C.State (Checked Bars)
  store_bar bar_index bars rest invalid_bar_type = pure invalid_bar_type
  store_bar bar_index bars rest (valid info) = do
    assert (ltb bar_index (length bars))
    rest (bar_index + (if takes_two_entries info then 2 else 1)) (set bars bar_index (some info))

  -- the loop of `bars`, with fuel; what has run out of it is taken for a panic
  unfoldable pub bars_loop : ℕ → ℕ → Bars → Cmd C.State (Checked Bars)
  bars_loop zero bar_index bars = λ s. panic
  bars_loop (suc fuel) bar_index bars =
      if ltb bar_index 6
      then (do info ← bar_info bar_index; store_bar bar_index bars (bars_loop fuel) info)
      else pure (valid bars)

  -- `bars`
  unfoldable pub bars : Cmd C.State (Checked Bars)
  unfolding bars_loop bar_info
  bars = bars_loop 7 0 (replicate 6 none)

  -- `set_bar_32` and `set_bar_64`
  unfoldable pub set_bar_32 : ℕ → ℕ → Cmd C.State (Unit {0})
  set_bar_32 bar_index address = do offset ← register bar_index; write offset address

  unfoldable pub set_bar_64 : ℕ → ℕ → Cmd C.State (Unit {0})
  set_bar_64 bar_index address = do
    offset ← register bar_index
    write offset (address % 2 ^ 32)
    top ← register (bar_index + 1)
    write top (address / 2 ^ 32)
