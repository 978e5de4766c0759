-- ===== src/Control.antt =====
-- src/server/control.rs: the server's side of a control connection.
pub mod Handshake
pub mod Session
pub mod Writer
pub mod Serve
mod Tests
