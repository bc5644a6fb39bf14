-- ===== src/Buffer.antt =====
-- Buffers between the sockets and the protocol.
pub mod RecvBuf
pub mod Circular
pub mod Fifo
pub mod Ring
pub mod SendQueue
