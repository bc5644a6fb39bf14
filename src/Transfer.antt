-- ===== src/Transfer.antt =====
-- Files on their way: which chunks have arrived, and the receiver.
pub mod ResumeMap
pub mod Receiver
