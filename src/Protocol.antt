-- ===== src/Protocol.antt =====
-- src/protocol.rs: constants, enumerations, preamble, messages and frames, one to a module.
-- A byte array is a list of numbers below 256; its fixed size is part of each message's validity.
pub mod Enums
pub mod Preamble
pub mod ControlHello
pub mod ControlChallenge
pub mod Registered
pub mod OpenFailed
pub mod DataHello
pub mod DataChallenge
pub mod Small
pub mod Frame
pub mod Exchange
mod Tests
