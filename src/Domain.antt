-- ===== src/Domain.antt =====
-- The crate core-domain: models, rules and ports.
pub mod Enums
pub mod EnumText
pub mod Json
pub mod Errors
pub mod Checks
pub mod Models
pub mod Ports
pub mod Address
pub mod Jobs
pub mod Lifecycle
pub mod Numbering
pub mod Nit
pub mod Notify
