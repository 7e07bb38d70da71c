-- ===== src/Transport/Pci/Bars/Sizes.antt =====
-- What `bar_info` and `bars` of src/transport/pci/bus.rs come to.
use mathlib.Core.Path.{subst}
use virtio_drivers_and_devic.Prelude.{
  ℕ, ◌+◌, ◌-◌, ◌*◌, ◌/◌, ◌%◌, ◌^◌, ◌<◌, ◌≡◌, ◌⊎◌, inl, inr, ◌==◌, not, refl, ap, ◌∙◌, arith, ltb,
  leb, true, false, Bool-cases, bit_and,
}
use virtio_drivers_and_devic.Prelude.Bits.{bit_and-mask, bit_and-shift}
use Prim.Native.Nat.{bit_or}
use virtio_drivers_and_devic.Error.{Run, ok}
use virtio_drivers_and_devic.Transport.Pci.{DeviceFunction, ConfigurationAccess}
use virtio_drivers_and_devic.Transport.Pci.Bars.{
  MemoryBarType, width32, below_1mib, width64, Checked, valid, invalid_bar_type, try_from_bar_type,
  BarInfo, memory, io, takes_two_entries, size_of, bar0_offset, size_from, memory_bar, bar_info,
}

masked : (x : ℕ) → bit_and x 4294967280 ≡ x / 16 % 268435456 * 16
masked x = bit_and-shift 4 x 268435455 ∙ ap (λ (n : ℕ). n * 16) (bit_and-mask 28 (x / 16))

module _ (C : ConfigurationAccess) (f : DeviceFunction) where
  -- A register that decodes `n` bytes, as the PCI specification has it: after all ones are written
  -- to it, the address bits that a region of `n` bytes leaves read back as ones, above the given
  -- flags, and what was there can be written back.
  pub record Decodes (offset n flags : ℕ) (s : C.State) : Type 0 where
    pub mask : C.read_word f offset (C.write_word f offset 4294967295 s) ≡ 2 ^ 32 - n + flags
    pub restored :
        C.write_word f offset (C.read_word f offset s) (C.write_word f offset 4294967295 s) ≡ s

  -- a valid result has the given size
  abbrev pub HasSize : ℕ → Checked BarInfo → Type 0
  HasSize n invalid_bar_type = Unit {0}
  HasSize n (valid info) = size_of info ≡ n

  -- a region that takes two entries does not begin in the last
  abbrev pub HasRoom : ℕ → Checked BarInfo → Type 0
  HasRoom bar_index invalid_bar_type = Unit {0}
  HasRoom bar_index (valid info) = takes_two_entries info ≡ true → bar_index < 5

  size_from-multiple :
      (n flags : ℕ)
      → 0 < n
      → n < 2 ^ 32
      → n % 16 ≡ 0
      → flags < 16
      → size_from C f (2 ^ 32 - n + flags) ≡ n
  size_from-multiple n flags h l m k = omega (arith, masked (2 ^ 32 - n + flags))

  memory_bar-HasSize :
      (bar_index bar_orig size : ℕ) (t : Checked MemoryBarType) (s : C.State)
      → bar_index < 6
      → (r : Checked BarInfo) × (memory_bar C f bar_index bar_orig size t s ≡ ok r s)
        × HasSize size r
        × HasRoom bar_index r
  memory_bar-HasSize bar_index bar_orig size invalid_bar_type s h = (invalid_bar_type, refl, tt, tt)
  memory_bar-HasSize bar_index bar_orig size (valid width32) s h =
      (_, refl, refl, λ two. absurd (ground (arith, two)))
  memory_bar-HasSize bar_index bar_orig size (valid below_1mib) s h =
      (_, refl, refl, λ two. absurd (ground (arith, two)))
  memory_bar-HasSize bar_index bar_orig size (valid width64) s h =
      elim (Bool-cases (leb 5 bar_index)) [
        | inl last ↦ (invalid_bar_type, rw last refl, tt, tt)
        | inr before ↦ (
          valid (
              memory width64 (not (bit_and bar_orig 8 == 0))
                (bit_or (bit_and bar_orig 4294967280)
                  (C.read_word f (bar0_offset + 4 * (bar_index + 1)) s * 2 ^ 32))
                size),
          rw (before, fits before) refl,
          refl,
          λ two. ground (arith, before),
        )
      ]
    where
      fits : leb 5 bar_index ≡ false → ltb (bar0_offset + 4 * (bar_index + 1)) 256 ≡ true
      fits b = ground arith

  register_fits : (bar_index : ℕ) → bar_index < 6 → ltb (bar0_offset + 4 * bar_index) 256 ≡ true
  register_fits bar_index h = ground arith

  -- whatever the registers hold
  pub bar_info-ok :
      (bar_index : ℕ) (s : C.State)
      → bar_index < 6
      → (let offset = bar0_offset + 4 * bar_index in
          let t = C.write_word f offset 4294967295 s in
          (r : Checked BarInfo) × (bar_info C f bar_index s
            ≡ ok r (C.write_word f offset (C.read_word f offset s) t))
          × HasSize (size_from C f (C.read_word f offset t)) r
          × HasRoom bar_index r)
  unfolding bar_info
  bar_info-ok bar_index s h =
      let offset = bar0_offset + 4 * bar_index in
      let t = C.write_word f offset 4294967295 s in
      elim (Bool-cases (bit_and (C.read_word f offset s) 1 == 1)) [
        | inl is_io ↦ (
          valid (
              io (bit_and (C.read_word f offset s) 4294967292)
                (size_from C f (C.read_word f offset t))),
          rw (register_fits bar_index h, is_io) refl,
          refl,
          λ two. absurd (ground (arith, two)),
        )
        | inr is_memory ↦
            let (r, is, size, room) =
              memory_bar-HasSize bar_index (C.read_word f offset s)
                (size_from C f (C.read_word f offset t))
                (try_from_bar_type (bit_and (C.read_word f offset s) 6 / 2))
                (C.write_word f offset (C.read_word f offset s) t) h in
            (r, rw (register_fits bar_index h, is_memory) is, size, room)
      ]

  -- For a register that decodes `n` bytes, a multiple of 16 below `2 ^ 32`, `bar_info` leaves the
  -- registers as they were and, unless the type is invalid, says that the size is `n`.
  pub bar_info-HasSize :
      (bar_index n flags : ℕ) (s : C.State)
      → bar_index < 6
      → 0 < n
      → n < 2 ^ 32
      → n % 16 ≡ 0
      → flags < 16
      → Decodes (bar0_offset + 4 * bar_index) n flags s
      → (r : Checked BarInfo) × (bar_info C f bar_index s ≡ ok r s) × HasSize n r
  bar_info-HasSize bar_index n flags s i h l m k d =
      let (r, is, size, room) = bar_info-ok bar_index s i in
      (
        r,
        is ∙ ap (λ t. ok r t) d.restored,
        subst (λ z. HasSize z r) (ap (size_from C f) d.mask ∙ size_from-multiple n flags h l m k)
            size,
      )

  bar_info-io :
      (bar_index : ℕ) (s : C.State)
      → bar_index < 6
      → bit_and (C.read_word f (bar0_offset + 4 * bar_index) s) 1 ≡ 1
      → (let offset = bar0_offset + 4 * bar_index in
          let t = C.write_word f offset 4294967295 s in
          bar_info C f bar_index s
          ≡ ok
              (valid (
                io
                  (bit_and (C.read_word f offset s) 4294967292)
                  (size_from C f (C.read_word f offset t))))
              (C.write_word f offset (C.read_word f offset s) t))
  unfolding bar_info
  bar_info-io bar_index s h is_io = rw (register_fits bar_index h, is_io) refl

  -- For an I/O register that decodes 4 or 8 bytes, `bar_info` leaves the registers as they were and
  -- gives the address that the register holds and the size 16.
  pub bar_info-small_io :
      (bar_index n : ℕ) (s : C.State)
      → bar_index < 6
      → (n ≡ 4) ⊎ (n ≡ 8)
      → bit_and (C.read_word f (bar0_offset + 4 * bar_index) s) 1 ≡ 1
      → Decodes (bar0_offset + 4 * bar_index) n 1 s
      → bar_info C f bar_index s
        ≡ ok (valid (io (bit_and (C.read_word f (bar0_offset + 4 * bar_index) s) 4294967292) 16)) s
  bar_info-small_io bar_index n s i small is_io d =
      bar_info-io bar_index s i is_io
      ∙ ap (λ t. gives (size_from C f (C.read_word f offset written)) t) d.restored
      ∙ ap (λ size. gives size s) (ap (size_from C f) d.mask ∙ sixteen small)
    where
      offset : ℕ
      offset = bar0_offset + 4 * bar_index

      written : C.State
      written = C.write_word f offset 4294967295 s

      gives : ℕ → C.State → Run C.State (Checked BarInfo)
      gives size t = ok (valid (io (bit_and (C.read_word f offset s) 4294967292) size)) t

      sixteen : (n ≡ 4) ⊎ (n ≡ 8) → size_from C f (2 ^ 32 - n + 1) ≡ 16
      sixteen (inl e) = omega (arith, masked (2 ^ 32 - n + 1))
      sixteen (inr e) = omega (arith, masked (2 ^ 32 - n + 1))
