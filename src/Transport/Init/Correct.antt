-- ===== src/Transport/Init/Correct.antt =====
-- What `begin_init` of src/transport/mod.rs negotiates.
use virtio_drivers_and_devic.Prelude.{
  ℕ, ◌≡◌, ◌≢◌, refl, ap, ◌∙◌, min, bit_and, Bool, true, false, Bool-cases, Option, ◌⊎◌, ==→eq,
  ne_of_==, inl, inr, not, ◌&&◌, ◌==◌,
}
use virtio_drivers_and_devic.Prelude.Bits.{bit_at, bit_at-bit_and}
use virtio_drivers_and_devic.Error.{Run, ok, err, unsupported}
use virtio_drivers_and_devic.Memory.{page_size}
use virtio_drivers_and_devic.Transport.Init.{
  InitTransport, DeviceStatus, acknowledge_driver, with_features_ok, features_ok, unwrap_or,
  takes_version_1, accept_features, begin_init,
}

module _ (T : InitTransport) where
  -- the state of the transport when the features have been read
  abbrev pub offered : T.State → ℕ × T.State
  offered s = T.read_device_features (T.set_status acknowledge_driver (T.set_status 0 s))

  -- the features that device and driver have in common
  abbrev pub common : ℕ → ℕ → T.State → ℕ
  common all_flags supported s = bit_and (bit_and (offered s).0 all_flags) supported

  -- With a transport that accepts the status, `begin_init` ends in one of two ways: the device has
  -- confirmed the features in its status and they are the result, or it has not, which is an
  -- error. They have the bits that the device offers, that are flags, and that the driver supports.
  abbrev pub InitOutcome : ℕ → ℕ → T.State → Option DeviceStatus → T.State → Run T.State ℕ → Type 0
  InitOutcome all_flags supported s response t result =
      ((k : ℕ)
        → bit_at k (common all_flags supported s)
          ≡ min (min (bit_at k (offered s).0) (bit_at k all_flags)) (bit_at k supported))
      × (((bit_and (unwrap_or response (T.get_status t)) features_ok ≡ features_ok)
            × (result ≡ ok (common all_flags supported s) (T.set_guest_page_size page_size t)))
          ⊎ ((bit_and (unwrap_or response (T.get_status t)) features_ok ≢ features_ok)
              × (result ≡ err unsupported t)))

  -- Where the driver takes `VERSION_1` if it is offered, and the transport accepts the status after
  -- the common features have been written, `begin_init` ends as `InitOutcome` says, with and
  -- without debug assertions.
  pub begin_init-InitOutcome :
      (debug : Bool) (all_flags supported : ℕ) (s t : T.State) (response : Option DeviceStatus)
      → takes_version_1 (offered s).0 (common all_flags supported s) ≡ true
      → T.try_set_status with_features_ok
          (T.write_driver_features (common all_flags supported s) (offered s).1)
        ≡ ok response t
      → InitOutcome all_flags supported s response t (begin_init T debug all_flags supported s)
  unfolding begin_init accept_features
  begin_init-InitOutcome debug all_flags supported s t response takes accepts = (
    λ k.
        bit_at-bit_and k (bit_and (offered s).0 all_flags) supported
        ∙ ap (λ (b : ℕ). min b (bit_at k supported)) (bit_at-bit_and k (offered s).0 all_flags),
    elim (Bool-cases (bit_and (unwrap_or response (T.get_status t)) features_ok == features_ok)) [
      | inl confirmed ↦ inl (==→eq _ _ confirmed, rw (no_assertion debug, accepts, confirmed) refl)
      | inr refused ↦ inr (ne_of_== _ _ refused, rw (no_assertion debug, accepts, refused) refl)
    ],
  )
    where
      no_assertion :
          (b : Bool)
          → (b && not (takes_version_1 (offered s).0 (common all_flags supported s))) ≡ false
      no_assertion true = rw takes refl
      no_assertion false = refl
