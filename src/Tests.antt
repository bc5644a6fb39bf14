-- ===== src/Tests.antt =====
-- Runs of the model, and its theorems applied to concrete inputs.
mod Sealed
mod Codecs
mod Buffers
mod Limits
mod Guards
mod Offers
mod Files
mod Topics
mod Sessions
mod Transfers
mod Receivers
mod Managers
