-- ===== src/Transport.antt =====
-- What a driver calls on a transport: the trait Transport of src/transport/mod.rs, whose
-- implementations keep a `State` of their own.
pub mod Init
pub mod Pci
mod Tests
use virtio_drivers_and_devic.Prelude.{ℕ, Bool}

pub record Transport : Type 1 where
  pub State : Type 0
  pub max_queue_size : ℕ → State → ℕ × State
  pub notify : ℕ → State → State
  pub requires_legacy_layout : State → Bool
  -- the queue's index and size, and the addresses of its descriptors, driver area and device area
  pub queue_set : ℕ → ℕ → ℕ → ℕ → ℕ → State → State
  pub queue_used : ℕ → State → Bool × State
