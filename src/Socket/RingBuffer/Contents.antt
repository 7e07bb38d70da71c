-- ===== src/Socket/RingBuffer/Contents.antt =====
-- The bytes that a ring buffer holds, in the order of their arrival, and when it is well formed.
use virtio_drivers_and_devic.Prelude.{
  ℕ, ◌+◌, ◌-◌, ◌%◌, ◌≤◌, ◌<◌, ◌≡◌, List, length, get_or, tabulate, arith, ltb, if◌then◌else◌,
}
use native.Mathlib.Nat.{mod-eq_of_lt, mod-eq-sub-mod}
use virtio_drivers_and_devic.Socket.RingBuffer.{RingBuffer}

pub record IsValid (r : RingBuffer) : Type 0 where
  pub start_in : r.start < length r.buffer
  pub used_in : r.used ≤ length r.buffer

-- the `i`-th byte that a reader gets
abbrev pub byte_at : RingBuffer → ℕ → ℕ
byte_at r i = get_or r.buffer ((r.start + i) % length r.buffer) 0

abbrev pub contents : RingBuffer → List ℕ
contents r = tabulate r.used (byte_at r)

-- A sum below twice the capacity goes round at most once.
pub mod_once : (x n : ℕ) → x < n + n → x % n ≡ (if ltb x n then x else x - n)
mod_once x n h = grind (arith, mod-eq_of_lt, mod-eq-sub-mod)
