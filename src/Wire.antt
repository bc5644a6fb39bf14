-- ===== src/Wire.antt =====
-- The formats that securelink puts on the wire, one module each.
pub mod Frame
pub mod Rpc
pub mod Record
pub mod Beacon
pub mod Pubsub
pub mod Offer
pub mod Extensions
pub mod BeaconAck
pub mod Handshake
pub mod FileMeta
pub mod Readers
pub mod FileChunk
pub mod Ticket
pub mod RpcMethod
