-- ===== src/Workload.antt =====
-- Workload generation and reception (src/workload/).
pub mod Pacer
pub mod SendLag
pub mod Builder
pub mod Receiver
pub mod Dscp
mod Tests
