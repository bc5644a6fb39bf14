-- ===== src/Crypto.antt =====
-- What the sealed formats use of the cryptography.
pub mod Aead
pub mod Nonce
