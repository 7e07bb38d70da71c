-- ===== src/Socket.antt =====
-- The socket device: src/device/socket/.
pub mod ByteQueue
pub mod RingBuffer
mod Tests
pub mod Protocol
pub mod Event
pub mod Connection
pub mod Vec
pub mod Packet
pub mod ConnectionManager
