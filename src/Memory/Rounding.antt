-- ===== src/Memory/Rounding.antt =====
-- What `align_up` and `pages` of src/lib.rs round to.
use virtio_drivers_and_devic.Prelude.{
  ℕ, ◌+◌, ◌-◌, ◌*◌, ◌/◌, ◌%◌, ◌^◌, ◌≤◌, ◌<◌, ◌≡◌, ◌≢◌, ◌∙◌, ap, arith, bit_and,
}
use virtio_drivers_and_devic.Prelude.Bits.{bit_and-mask, bit_and-shift}
use virtio_drivers_and_devic.Memory.{page_size, align_up, pages}

-- The mask of `align_up` is 52 ones above 12 zeros.
high_mask : (x : ℕ) → x < 2 ^ 64 → bit_and x ((2 ^ 52 - 1) * 2 ^ 12) ≡ x / page_size * page_size
high_mask x h =
    bit_and-shift 12 x (2 ^ 52 - 1)
    ∙ ap (λ (n : ℕ). n * 2 ^ 12) (bit_and-mask 52 (x / 2 ^ 12))
    ∙ omega arith

-- `align_up` goes to the end of the page in which the byte behind the last lies.
pub align_up_lem :
    (size : ℕ) → size + page_size < 2 ^ 64 → align_up size ≡ (size / page_size + 1) * page_size
unfolding align_up
align_up_lem size h = high_mask ((size + page_size) % 2 ^ 64) (omega arith) ∙ omega arith

-- Where no overflow occurs and the size is no multiple of the page size, `align_up` gives the
-- bytes of the pages that the size needs.
pub align_up-pages :
    (size : ℕ)
    → size + page_size < 2 ^ 64
    → size % page_size ≢ 0
    → align_up size ≡ pages size * page_size
unfolding pages
align_up-pages size h p = omega (arith, align_up_lem size h)

-- At a multiple of the page size, where no overflow occurs, `align_up` gives one page more than the
-- size needs.
pub align_up-multiple :
    (size : ℕ)
    → size + page_size < 2 ^ 64
    → size % page_size ≡ 0
    → (align_up size ≡ size + page_size) × (pages size * page_size ≡ size)
unfolding pages
align_up-multiple size h p = omega (arith, align_up_lem size h)

-- The pages of `pages` hold the bytes.
pub le_pages : (size : ℕ) → size ≤ pages size * page_size
unfolding pages
le_pages size = omega arith
