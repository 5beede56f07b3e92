-- ===== src/Metrics.antt =====
-- Application metrics (src/metrics/).
pub mod Samples
pub mod Stats
pub mod Summary
pub mod Integrity
pub mod Flow
mod Tests
