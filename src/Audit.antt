-- ===== src/Audit.antt =====
-- scripts/audit-report.mjs, which reads the report of a security audit, refuses one that departs from
-- the format, and records what a finding was filed as.
pub mod Result
pub mod Scalar
pub mod Finding
pub mod Report
pub mod Command
pub mod Lines
pub mod Marking
pub mod Value
pub mod Keys
pub mod Order
pub mod Filed
pub mod Marks
pub mod Sections
pub mod Parsed
pub mod Refiled
pub mod Sound
pub mod Recorded
mod Tests
