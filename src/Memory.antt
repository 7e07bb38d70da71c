-- ===== src/Memory.antt =====
-- Page arithmetic of src/lib.rs, on 64-bit `usize`.
pub mod Rounding
mod Tests
use virtio_drivers_and_devic.Prelude.{ℕ, ◌+◌, ◌-◌, ◌/◌, ◌%◌, ◌^◌, bit_and}

abbrev pub page_size : ℕ
page_size = 0x1000

-- `!x` on `usize`
abbrev pub not_usize : ℕ → ℕ
not_usize x = 2 ^ 64 - 1 - x

-- `align_up`
pub align_up : ℕ → ℕ
align_up size = bit_and ((size + page_size) % 2 ^ 64) (not_usize (page_size - 1))

-- `pages`: `size.div_ceil(PAGE_SIZE)`
pub pages : ℕ → ℕ
pages size = (size + (page_size - 1)) / page_size
