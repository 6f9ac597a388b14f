-- ===== src/Ubl.antt =====
-- The crate ubl-engine.
pub mod Cufe
pub mod Parties
pub mod Money
pub mod Lines
pub mod Payload
pub mod Documents
