-- ===== src/Transport/Pci/Tests.antt =====
-- Functions of a PCI bus with a few registers, for src/transport/pci/bus.rs.
use virtio_drivers_and_devic.Prelude.{
  ℕ, ◌+◌, ◌-◌, ◌*◌, ◌%◌, ◌<◌, ◌≤◌, ◌≡◌, ◌==◌, inr, refl, false, bit_and, arith, if◌then◌else◌,
  Option, some, List, length,
}
use virtio_drivers_and_devic.Error.{ok}
use virtio_drivers_and_devic.Transport.Pci.{DeviceFunction, ConfigurationAccess, get_status_command}
use virtio_drivers_and_devic.Transport.Pci.Cam.{ecam, cam_offset, place, cam_offset-place}
use virtio_drivers_and_devic.Transport.Pci.Devices.{enumerate_bus, answers, enumerate_bus-answers}
use virtio_drivers_and_devic.Transport.Pci.Capabilities.{
  capabilities_offset, link, Listed, checked_offset, capabilities, capabilities-Increasing,
  capabilities-cyclic,
}
use virtio_drivers_and_devic.Transport.Pci.Bars.{Checked, valid, io, BarInfo, bar_info, bars}
use virtio_drivers_and_devic.Transport.Pci.Regions.{get_bar_region, Inside, get_bar_region-Inside}
use virtio_drivers_and_devic.Transport.Pci.Bars.Sizes.{HasSize, bar_info-HasSize, bar_info-small_io}
use virtio_drivers_and_devic.Transport.Pci.Bars.Scanned.{Scan, bars-Scan}

abbrev third : DeviceFunction
third = record { bus = 1; device = 3; function = 2 }

-- `cam_offset-place` applies to one of its words.
cam_offset-place_example : cam_offset ecam third 16 ≡ some (place ecam third 16)
cam_offset-place_example = cam_offset-place ecam third 16 (record {
  bus = omega arith;
  device = omega arith;
  function = omega arith;
  byte = omega arith;
  aligned = refl;
})

-- a register that decodes `n` bytes, with the given flags
abbrev decoder : ℕ → ℕ → ConfigurationAccess
decoder n flags = record {
  State = ℕ;
  read_word = λ f offset s. s;
  write_word = λ f offset v s. v - v % n + flags;
}

-- `bar_info-HasSize` applies to 4096 bytes of memory at address 4276092928.
bar_info-HasSize_example :
    (r : Checked BarInfo) × (bar_info (decoder 4096 0) third 0 4276092928 ≡ ok r 4276092928)
    × HasSize (decoder 4096 0) third 4096 r
bar_info-HasSize_example =
    bar_info-HasSize (decoder 4096 0) third 0 4096 0 4276092928 (omega arith) (omega arith)
      (omega arith) refl (omega arith) (record { mask = refl; restored = refl })

-- `bar_info-small_io` applies to 8 bytes of I/O space at address 49152.
bar_info-small_io_example :
    bar_info (decoder 8 1) third 0 49153 ≡ ok (valid (io (bit_and 49153 4294967292) 16)) 49153
bar_info-small_io_example =
    bar_info-small_io (decoder 8 1) third 0 8 49153 (omega arith) (inr refl) refl
      (record { mask = refl; restored = refl })

-- `bars-Scan` applies to the former.
bars-Scan_example :
    (r : Checked (List (Option BarInfo))) × (t : ℕ) × (bars (decoder 4096 0) third 4276092928
      ≡ ok r t)
    × Scan (decoder 4096 0) third 0 4276092928 r t
bars-Scan_example = bars-Scan (decoder 4096 0) third 4276092928

-- `get_bar_region-Inside` applies to a capability for 56 bytes at 256 of the former, in a build
-- without overflow checks.
get_bar_region-Inside_example :
    Inside
      (decoder 4096 0)
      (λ paddr n. paddr)
      false
      56
      4
      (record { bar = 0; offset = 256; length = 56 })
      (bar_info (decoder 4096 0) third 0 4276092928)
      (get_bar_region
        (decoder 4096 0)
        (λ paddr n. paddr)
        false
        56
        4
        third
        (record { bar = 0; offset = 256; length = 56 })
        4276092928)
get_bar_region-Inside_example =
    get_bar_region-Inside (decoder 4096 0) (λ paddr n. paddr) false 56 4 third
      (record { bar = 0; offset = 256; length = 56 }) 4276092928 (inr (omega arith))

-- registers that are never written: a list of capabilities at 64, whose first one leads to the
-- given place
abbrev listed : ℕ → ConfigurationAccess
listed next_offset = record {
  State = Unit {0};
  read_word = λ f offset s.
      if offset == 4
      then 1048576
      else if offset == 52
      then 64
      else if offset == 64
      then 256 * next_offset
      else 0;
  write_word = λ f offset v s. s;
}

-- `enumerate_bus-answers` applies to bus 1.
enumerate_bus-answers_example : enumerate_bus (listed 0) tt 1 ≡ answers (listed 0) tt 1 0 256
enumerate_bus-answers_example = enumerate_bus-answers (listed 0) tt 1

listed_at : capabilities_offset (listed 64) third tt ≡ some 64
unfolding capabilities_offset get_status_command
listed_at = refl

itself : link (listed 64) third tt 64 ≡ some 64
unfolding checked_offset
itself = refl

-- `capabilities-cyclic` applies to a list whose first capability leads back to it.
capabilities-cyclic_example : length (capabilities (listed 64) third tt 1000) ≡ 1000
capabilities-cyclic_example = capabilities-cyclic (listed 64) third tt 1000 64 listed_at itself

upwards :
    (o o' : ℕ) → Listed (listed 68) third tt o → link (listed 68) third tt o ≡ some o' → o < o'
unfolding checked_offset
upwards o o' l h = ground arith

-- `capabilities-Increasing` applies to a list of two.
capabilities-Increasing_example : length (capabilities (listed 68) third tt 1000) ≤ 64
capabilities-Increasing_example = capabilities-Increasing (listed 68) third tt 1000 upwards
