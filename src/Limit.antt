-- ===== src/Limit.antt =====
-- What bounds a peer: flow control, rates, lockouts, connection caps.
pub mod Backoff
pub mod Deadline
pub mod Flow
pub mod TokenBucket
