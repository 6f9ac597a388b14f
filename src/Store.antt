-- ===== src/Store.antt =====
-- The persistence ports, core-domain/src/testing.rs: the store and its operations.
pub mod State
pub mod Documents
pub mod Transitions
pub mod Queue
pub mod Deliveries
pub mod Admin
pub mod Frame
pub mod Evolution
pub mod Operations
pub mod Outcome
pub mod InForce
pub mod Issuing
pub mod History
