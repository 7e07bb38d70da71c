-- ===== src/Memory/Tests.antt =====
-- Runs of the page arithmetic of src/lib.rs.
use virtio_drivers_and_devic.Prelude.{◌*◌, ◌+◌, ◌≡◌, arith}
use virtio_drivers_and_devic.Memory.{page_size, align_up, pages}
use virtio_drivers_and_devic.Memory.Rounding.{align_up-pages, align_up-multiple}

-- `align_up-pages` applies to 4097 bytes.
align_up-pages_example : align_up 4097 ≡ pages 4097 * page_size
align_up-pages_example = align_up-pages 4097 (omega arith) (omega arith)

-- `align_up-multiple` applies to a page.
align_up-multiple_example : (align_up 4096 ≡ 4096 + page_size) × (pages 4096 * page_size ≡ 4096)
align_up-multiple_example = align_up-multiple 4096 (omega arith) (omega arith)
