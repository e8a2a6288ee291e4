-- ===== src/Cve.antt =====
-- The CVE assessment (cve/): its coverage state, its request limits, its applicability and its ranks.
pub mod Status
pub mod Limiter
pub mod Version
pub mod Applicability
pub mod Range
mod Tests
