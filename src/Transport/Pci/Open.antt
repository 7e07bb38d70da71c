-- ===== src/Transport/Pci/Open.antt =====
-- `PciTransport::new` of src/transport/pci.rs.
use virtio_drivers_and_devic.Prelude.{
  ℕ, ◌+◌, ◌-◌, ◌/◌, ◌%◌, ◌^◌, ◌==◌, ◌&&◌, ◌||◌, not, ltb, leb, if◌then◌else◌, Bool, true, false,
  Option, some, none, List, [], ◌∷◌,
}
use virtio_drivers_and_devic.Error.{Cmd, ◌>>=◌, ◌>>◌, get, pure, assert}
use virtio_drivers_and_devic.Transport.Pci.{DeviceFunction, ConfigurationAccess}
use virtio_drivers_and_devic.Transport.Pci.Capabilities.{CapabilityInfo, capabilities}
use virtio_drivers_and_devic.Transport.Pci.Regions.{
  VirtioCapabilityInfo, VirtioPciError, invalid_vendor_id, missing_common_config,
  missing_notify_config, missing_isr_config, invalid_notify_off_multiplier, Usable, usable,
  unusable, get_bar_region, get_bar_region_slice,
}

-- `From<u32>` of `DeviceType`, for the number of the type; 0 is `Invalid`
abbrev pub device_type_from : ℕ → ℕ
device_type_from n =
    if n == 5 then 13 else if (leb 1 n && leb n 13) || (leb 16 n && leb n 25) then n else 0

-- `device_type`
unfoldable pub device_type : ℕ → ℕ
device_type id =
    if id == 4096
    then 1
    else if id == 4097
    then 2
    else if id == 4098
    then 13
    else if id == 4099
    then 3
    else if id == 4100
    then 8
    else if id == 4101
    then 4
    else if id == 4105
    then 9
    else if leb 4160 id
    then device_type_from (id - 4160)
    else 0

-- the structures that have been found
pub record Found : Type 0 where
  pub common_cfg : Option VirtioCapabilityInfo
  pub notify_cfg : Option VirtioCapabilityInfo
  pub notify_off_multiplier : ℕ
  pub isr_cfg : Option VirtioCapabilityInfo
  pub device_cfg : Option VirtioCapabilityInfo

abbrev pub is_none : Option VirtioCapabilityInfo → Bool
is_none none = true
is_none (some info) = false

-- `PciTransport`; a region is its address, a slice its address and its number of elements
pub record PciTransport : Type 0 where
  pub device_type : ℕ
  pub device_function : DeviceFunction
  pub common_cfg : ℕ
  pub notify_region : ℕ × ℕ
  pub notify_off_multiplier : ℕ
  pub notification_offsets : List (ℕ × ℕ)
  pub isr_status : ℕ
  pub config_space : Option (ℕ × ℕ)

module _ (C : ConfigurationAccess) (f : DeviceFunction) where
  -- a word behind a capability's offset; the sum of `u8` numbers panics when it overflows
  abbrev pub read_behind : CapabilityInfo → ℕ → Cmd C.State ℕ
  read_behind capability n = do
    assert (ltb (capability.offset + n) (2 ^ 8))
    s ← get
    pure (C.read_word f (capability.offset + n) s)

  -- the `match` in the loop of `new`
  abbrev pub choose : CapabilityInfo → ℕ → ℕ → VirtioCapabilityInfo → Found → Cmd C.State Found
  choose capability cfg_type cap_len info found =
      if (cfg_type == 1) && is_none found.common_cfg
      then pure (record found { common_cfg = some info })
      else if (cfg_type == 2) && (leb 20 cap_len && is_none found.notify_cfg)
      then (do
        multiplier ← read_behind capability 16
        pure (record found { notify_cfg = some info; notify_off_multiplier = multiplier }))
      else if (cfg_type == 3) && is_none found.isr_cfg
      then pure (record found { isr_cfg = some info })
      else if (cfg_type == 4) && is_none found.device_cfg
      then pure (record found { device_cfg = some info })
      else pure found

  -- one turn of the loop
  unfoldable pub scan_one : CapabilityInfo → Found → Cmd C.State Found
  scan_one capability found =
      let cap_len = capability.private_header % 2 ^ 8 in
      let cfg_type = capability.private_header / 2 ^ 8 % 2 ^ 8 in
      if not (capability.id == 9) || ltb cap_len 16 then pure found else do
        bar ← read_behind capability 4
        offset ← read_behind capability 8
        length ← read_behind capability 12
        choose capability cfg_type cap_len
            (record { bar = bar % 2 ^ 8; offset = offset; length = length }) found

  -- the loop
  unfoldable pub scan : List CapabilityInfo → Found → Cmd C.State Found
  unfolding scan_one
  scan [] found = pure found
  scan (capability ∷ rest) found = do found' ← scan_one capability found; scan rest found'

-- the parts of a result that may be an error
abbrev pub if_usable : {S A B : Type 0} → Usable A → (A → Cmd S (Usable B)) → Cmd S (Usable B)
if_usable (unusable e) k = pure (unusable e)
if_usable (usable a) k = k a

abbrev pub ok_or :
    {S B : Type 0}
    → Option VirtioCapabilityInfo
    → VirtioPciError
    → (VirtioCapabilityInfo → Cmd S (Usable B))
    → Cmd S (Usable B)
ok_or none e k = pure (unusable e)
ok_or (some info) e k = k info

module _ (C : ConfigurationAccess) (mmio_phys_to_virt : ℕ → ℕ → ℕ) (overflow_checks : Bool)
    (f : DeviceFunction) where
  abbrev pub no_structures : Found
  no_structures = record {
    common_cfg = none;
    notify_cfg = none;
    notify_off_multiplier = 0;
    isr_cfg = none;
    device_cfg = none;
  }

  -- the region of the device's own configuration, if it has one
  abbrev pub config_region :
      Option VirtioCapabilityInfo
      → (Option (ℕ × ℕ) → Cmd C.State (Usable PciTransport))
      → Cmd C.State (Usable PciTransport)
  config_region none k = k none
  config_region (some info) k = do
    region ← get_bar_region_slice C mmio_phys_to_virt overflow_checks 4 4 f info
    if_usable region (λ r. k (some r))

  -- the part of `new` behind the loop
  unfoldable pub regions : ℕ → Found → Cmd C.State (Usable PciTransport)
  unfolding get_bar_region get_bar_region_slice
  regions device_type found = ok_or found.common_cfg missing_common_config (λ common_info. do
    common ← get_bar_region C mmio_phys_to_virt overflow_checks 56 8 f common_info
    if_usable common (λ common_cfg. ok_or found.notify_cfg missing_notify_config (λ notify_info.
        if not (found.notify_off_multiplier % 2 == 0)
        then pure (unusable (invalid_notify_off_multiplier found.notify_off_multiplier))
        else do
          notify ← get_bar_region_slice C mmio_phys_to_virt overflow_checks 2 2 f notify_info
          if_usable notify (λ notify_region. ok_or found.isr_cfg missing_isr_config (λ isr_info. do
            isr ← get_bar_region C mmio_phys_to_virt overflow_checks 1 1 f isr_info
            if_usable isr (λ isr_status. config_region found.device_cfg (λ config_space. pure (
                usable (record {
                  device_type = device_type;
                  device_function = f;
                  common_cfg = common_cfg;
                  notify_region = notify_region;
                  notify_off_multiplier = found.notify_off_multiplier;
                  notification_offsets = [];
                  isr_status = isr_status;
                  config_space = config_space;
                })))))))))

  -- `PciTransport::new`, for at most `fuel` capabilities
  unfoldable pub new : ℕ → Cmd C.State (Usable PciTransport)
  unfolding capabilities scan device_type regions
  new fuel = do
    s ← get
    let device_vendor = C.read_word f 0 s
    if not (device_vendor % 2 ^ 16 == 6900)
        then pure (unusable (invalid_vendor_id (device_vendor % 2 ^ 16)))
        else do
          found ← scan C f (capabilities C f s fuel) no_structures
          regions (device_type (device_vendor / 2 ^ 16 % 2 ^ 16)) found
