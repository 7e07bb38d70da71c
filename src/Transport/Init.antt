-- ===== src/Transport/Init.antt =====
-- `begin_init` and `finish_init` of the trait Transport in src/transport/mod.rs.
pub mod Correct
use virtio_drivers_and_devic.Prelude.{
  ℕ, ◌^◌, ◌&&◌, ltb, bit_and, ◌==◌, Bool, not, Option, none, some, if◌then◌else◌,
}
use virtio_drivers_and_devic.Error.{
  Cmd, Error, unsupported, ◌>>=◌, ◌>>◌, get, put, pure, fail, assert,
}
use virtio_drivers_and_devic.Memory.{page_size}

-- `DeviceStatus`: the bits of a `u32`
abbrev pub DeviceStatus : Type 0
DeviceStatus = ℕ

-- `ACKNOWLEDGE | DRIVER`, and with it `FEATURES_OK` and `DRIVER_OK`
abbrev pub acknowledge_driver : DeviceStatus
acknowledge_driver = 3

abbrev pub features_ok : DeviceStatus
features_ok = 8

abbrev pub with_features_ok : DeviceStatus
with_features_ok = 11

abbrev pub with_driver_ok : DeviceStatus
with_driver_ok = 15

-- what `begin_init` calls of the transport
pub record InitTransport : Type 1 where
  pub State : Type 0
  pub read_device_features : State → ℕ × State
  pub write_driver_features : ℕ → State → State
  pub get_status : State → DeviceStatus
  pub set_status : DeviceStatus → State → State
  -- `try_set_status`: the actual status, if the transport tells
  pub try_set_status : DeviceStatus → Cmd State (Option DeviceStatus)
  pub set_guest_page_size : ℕ → State → State

-- `unwrap_or`
abbrev pub unwrap_or : Option DeviceStatus → DeviceStatus → DeviceStatus
unwrap_or none d = d
unwrap_or (some x) d = x

-- `Feature::VERSION_1`
abbrev pub version_1 : ℕ
version_1 = 2 ^ 32

-- the assertion of `begin_init`: of the features on offer, `VERSION_1` is taken
abbrev pub takes_version_1 : ℕ → ℕ → Bool
takes_version_1 device negotiated =
    not (ltb 0 (bit_and device version_1) && not (ltb 0 (bit_and negotiated version_1)))

module _ (T : InitTransport) where
  abbrev pub change : (T.State → T.State) → Cmd T.State (Unit {0})
  change f = do s ← get; put (f s)

  -- the end of `begin_init`, from the write of the features on
  unfoldable pub accept_features : ℕ → Cmd T.State ℕ
  accept_features negotiated = do
    change (T.write_driver_features negotiated)
    response ← T.try_set_status with_features_ok
    s ← get
    let status = unwrap_or response (T.get_status s)
    if not (bit_and status features_ok == features_ok)
        then fail unsupported
        else do change (T.set_guest_page_size page_size); pure negotiated

  -- `begin_init`, with the bits of all flags of `F`, with or without debug assertions
  unfoldable pub begin_init : Bool → ℕ → ℕ → Cmd T.State ℕ
  unfolding accept_features
  begin_init debug all_flags supported = do
    change (T.set_status 0)
    change (T.set_status acknowledge_driver)
    s ← get
    let (offered, s') = T.read_device_features s
    put s'
    let negotiated = bit_and (bit_and offered all_flags) supported
    assert (not (debug && not (takes_version_1 offered negotiated)))
    accept_features negotiated

  -- `finish_init`
  unfoldable pub finish_init : Cmd T.State (Unit {0})
  finish_init = change (T.set_status with_driver_ok)
