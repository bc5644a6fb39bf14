-- ===== src/Session.antt =====
-- The state machines of a session, and the parts that put the codecs and the limits together.
pub mod Manager
pub mod Handshake
pub mod Connection
pub mod Phase
pub mod Dispatcher
pub mod Mux
