-- ===== src/Application.antt =====
-- The use cases of the crate application.
pub mod Resilience
pub mod World
pub mod Engine
pub mod Processing
pub mod Webhooks
pub mod Issue
pub mod Xml
pub mod Inbound
pub mod Radian
pub mod Requests
pub mod Admin
