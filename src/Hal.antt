-- ===== src/Hal.antt =====
-- What the drivers call outside this repository: an implementation of the trait `Hal` of
-- src/hal.rs, and the global allocator. `State` is whatever they keep between calls.
use virtio_drivers_and_devic.Prelude.{
  ℕ, ◌+◌, ◌*◌, ◌^◌, ◌==◌, ltb, if◌then◌else◌, Bool, ◌&&◌, ◌||◌, List, Option, some, none,
}
use virtio_drivers_and_devic.Error.{Cmd, ok, err, panic, dma_error, ◌>>=◌, pure}
use virtio_drivers_and_devic.Memory.{page_size}

-- `BufferDirection`
pub data BufferDirection : Type 0 where
  driver_to_device device_to_driver both : BufferDirection

-- `NonNull<[u8]>`: where a buffer lies and how many bytes it has
pub record Buffer : Type 0 where
  pub ptr : ℕ
  pub len : ℕ

pub record Hal : Type 1 where
  pub State : Type 0
  -- `dma_alloc`: physical address (0 on failure) and virtual address of the given pages
  pub dma_alloc : ℕ → BufferDirection → State → (ℕ × ℕ) × State
  -- `dma_dealloc`, with its error code (0 on success)
  pub dma_dealloc : ℕ → ℕ → ℕ → State → ℕ × State
  -- `share`: the physical address at which the device finds the buffer
  pub share : Buffer → BufferDirection → State → ℕ × State
  -- `unshare`
  pub unshare : ℕ → Buffer → BufferDirection → State → State
  -- the address of a fresh heap block of the given number of bytes, if there is memory for it
  pub alloc : ℕ → State → Option ℕ × State

-- `Dma`
pub record Dma : Type 0 where
  pub paddr : ℕ
  pub vaddr : ℕ
  pub pages : ℕ

module _ (H : Hal) where
  -- `Dma::new`
  unfoldable pub dma_new : ℕ → BufferDirection → Cmd H.State Dma
  dma_new n direction s =
      let ((paddr, vaddr), s') = H.dma_alloc n direction s in
      if paddr == 0
      then err dma_error s'
      else ok (record { paddr = paddr; vaddr = vaddr; pages = n }) s'

  -- `Drop` of `Dma`
  unfoldable pub dma_drop : Dma → Cmd H.State (Unit {0})
  dma_drop r s =
      let (code, s') = H.dma_dealloc r.paddr r.vaddr r.pages s in
      if code == 0 then ok tt s' else panic

-- a sum on `usize`, of an address and an offset; `none` is an overflow, which adding 0 never is
abbrev pub usize_sum : ℕ → ℕ → Option ℕ
usize_sum a b = if b == 0 || ltb (a + b) (2 ^ 64) then some (a + b) else none

-- `Dma::vaddr`; `none` is the failed assertion, or the overflow of the sum
unfoldable pub dma_vaddr : Dma → ℕ → Option ℕ
dma_vaddr r offset = if ltb offset (r.pages * page_size) then usize_sum r.vaddr offset else none

-- `DeviceHal`, which a device calls, and the memory that it maps
pub record DeviceHal : Type 1 where
  pub State : Type 0
  -- `dma_map`: the address of the given pages, for a client
  pub dma_map : ℕ → ℕ → BufferDirection → ℕ → Cmd State ℕ
  -- `dma_unmap`, with its error code (0 on success)
  pub dma_unmap : ℕ → ℕ → ℕ → State → ℕ × State
  -- the bytes of a buffer, and a write to its front
  pub read : Buffer → State → List ℕ
  pub write : ℕ → List ℕ → State → State

-- `DeviceDma`
pub record DeviceDma : Type 0 where
  pub paddr : ℕ
  pub vaddr : ℕ
  pub pages : ℕ
  pub client_id : ℕ

-- `PartialEq` of `DeviceDma`
unfoldable pub same_dma : DeviceDma → DeviceDma → Bool
same_dma a b = (a.paddr == b.paddr) && (a.vaddr == b.vaddr) && (a.pages == b.pages)

module _ (H : DeviceHal) where
  -- `DeviceDma::new`
  unfoldable pub device_dma_new : ℕ → ℕ → BufferDirection → ℕ → Cmd H.State DeviceDma
  device_dma_new paddr n direction client_id = do
    vaddr ← H.dma_map paddr n direction client_id
    pure (record { paddr = paddr; vaddr = vaddr; pages = n; client_id = client_id })

  -- `Drop` of `DeviceDma`
  unfoldable pub device_dma_drop : DeviceDma → Cmd H.State (Unit {0})
  device_dma_drop r s =
      let (code, s') = H.dma_unmap r.paddr r.vaddr r.pages s in
      if code == 0 then ok tt s' else panic

-- `DeviceDma::vaddr` and `DeviceDma::raw_slice`; `none` is the failed assertion, or the overflow of
-- the sum
unfoldable pub device_dma_vaddr : DeviceDma → ℕ → Option ℕ
device_dma_vaddr r offset =
    if ltb offset (r.pages * page_size) then usize_sum r.vaddr offset else none

unfoldable pub raw_slice : DeviceDma → Option Buffer
unfolding device_dma_vaddr
raw_slice r = elim (device_dma_vaddr r 0) [
  | none ↦ none
  | some vaddr ↦ some (record { ptr = vaddr; len = r.pages * page_size })
]
