-- ===== src/Transport/Tests.antt =====
-- A transport that stores what it is told, for src/transport/mod.rs.
use virtio_drivers_and_devic.Prelude.{ℕ, ◌+◌, ◌-◌, ◌^◌, none, true, refl}
use virtio_drivers_and_devic.Error.{ok}
use virtio_drivers_and_devic.Transport.Init.{InitTransport, begin_init}
use virtio_drivers_and_devic.Transport.Init.Correct.{InitOutcome, begin_init-InitOutcome}

-- the status and the features written, of a device that offers `VERSION_1` and three features
abbrev storing : InitTransport
storing = record {
  State = ℕ × ℕ;
  read_device_features = λ s. (2 ^ 32 + 7, s);
  write_driver_features = λ features (status, old). (status, features);
  get_status = λ (status, features). status;
  set_status = λ status (old, features). (status, features);
  try_set_status = λ status (old, features). ok none (status, features);
  set_guest_page_size = λ size s. s;
}

-- `begin_init-InitOutcome` applies to it, for a driver that supports two of them and one other.
begin_init-InitOutcome_example :
    InitOutcome storing
      (2 ^ 33 - 1)
      (2 ^ 32 + 13)
      (0, 0)
      none
      (11, 2 ^ 32 + 5)
      (begin_init storing true (2 ^ 33 - 1) (2 ^ 32 + 13) (0, 0))
begin_init-InitOutcome_example =
    begin_init-InitOutcome storing true (2 ^ 33 - 1) (2 ^ 32 + 13) (0, 0) (11, 2 ^ 32 + 5) none refl
      refl
