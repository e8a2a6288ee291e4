-- ===== src/Console/Tests.antt =====
-- The Console's theorems at one small assessment.
mod Data
mod Services
mod Submissions
mod Packages
