-- ===== src/Config.antt =====
-- The configuration: its data model, its validation and the run time estimated from it (src/config).
pub mod Schema
pub mod Report
pub mod Kinds
pub mod Address
pub mod Checks
pub mod Rules
pub mod Validate
pub mod Suite
pub mod Estimate
mod Tests
