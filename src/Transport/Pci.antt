-- ===== src/Transport/Pci.antt =====
-- A PCI bus: src/transport/pci/bus.rs, over an implementation of its trait ConfigurationAccess.
pub mod Cam
pub mod Devices
pub mod Capabilities
pub mod Bars
pub mod Regions
pub mod Open
mod Tests
use virtio_drivers_and_devic.Prelude.{ℕ, ◌*◌, ◌/◌, ◌%◌, ◌^◌, ◌==◌, ◌&&◌, ltb, bit_and, Bool}

-- `DeviceFunction`
pub record DeviceFunction : Type 0 where
  pub bus : ℕ
  pub device : ℕ
  pub function : ℕ

-- `DeviceFunction::valid`
abbrev pub valid : DeviceFunction → Bool
valid f = ltb f.device 32 && ltb f.function 8

-- `ConfigurationAccess`, whose implementations keep a `State`
pub record ConfigurationAccess : Type 1 where
  pub State : Type 0
  pub read_word : DeviceFunction → ℕ → State → ℕ
  pub write_word : DeviceFunction → ℕ → ℕ → State → State

-- `STATUS_COMMAND_OFFSET`
abbrev pub status_command_offset : ℕ
status_command_offset = 4

-- the bits that `Status` and `Command` name
abbrev pub status_bits : ℕ
status_bits = 63928

abbrev pub command_bits : ℕ
command_bits = 1919

-- `Status::CAPABILITIES_LIST`
abbrev pub capabilities_list : ℕ
capabilities_list = 16

module _ (C : ConfigurationAccess) where
  -- `get_status_command`
  unfoldable pub get_status_command : DeviceFunction → C.State → ℕ × ℕ
  get_status_command f s =
      let status_command = C.read_word f status_command_offset s in
      (
        bit_and (status_command / 2 ^ 16 % 2 ^ 16) status_bits,
        bit_and (status_command % 2 ^ 16) command_bits,
      )

  -- `set_command`
  unfoldable pub set_command : DeviceFunction → ℕ → C.State → C.State
  set_command f command s = C.write_word f status_command_offset command s
