-- ===== src/Ident.antt =====
-- The numbers that a session hands out.
pub mod Varint
pub mod StreamId
pub mod RpcId
pub mod Hexstr
