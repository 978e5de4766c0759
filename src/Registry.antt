-- ===== src/Registry.antt =====
-- src/server/registry.rs: the registry actor, which owns ports, sessions and pending requests.
pub mod State
pub mod Slots
pub mod Register
pub mod Lifecycle
pub mod Public
pub mod Actor
pub mod Handle
pub mod Consistent
pub mod Invariant
pub mod Permits
pub mod Delivery
pub mod Departure
pub mod Displaced
pub mod Opening
pub mod Expiry
pub mod Admission
pub mod Outcome
pub mod Resume
pub mod Ownership
pub mod Tests
