-- ===== src/Report.antt =====
-- The reports: the CSV tables that a run writes and the overview reads back (src/report).
pub mod Csv
mod Tests
