-- ===== src/Client.antt =====
-- src/client: the client that exposes a local target through a server.
pub mod Register
pub mod Open
pub mod Session
pub mod Supervisor
mod Tests
