-- ===== src/Guard.antt =====
-- What a server keeps about its peers, by their names.
pub mod Table
pub mod Lockout
pub mod Dos
