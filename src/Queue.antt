-- ===== src/Queue.antt =====
-- Split virtqueues: src/queue.rs.
pub mod Descriptor
pub mod State
pub mod Chain
pub mod Valid
pub mod Add
pub mod Pop
pub mod Layout
pub mod New
pub mod Notify
pub mod Device
pub mod Exchange
pub mod Owning
mod Tests
