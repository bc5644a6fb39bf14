-- ===== src/Session/Mux.antt =====
-- src/stream_multiplexer.cpp: many streams over one session. Each call is one step, under the lock that
-- the code takes.
pub mod State
pub mod Send
pub mod Receive
pub mod Run
pub mod Windows
pub mod Credit
pub mod Fins
