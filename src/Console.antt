-- ===== src/Console.antt =====
-- The Assessment Console (csa_console/): sessions, nonces, trusted grants, submissions, audit chain.
pub mod Fault
pub mod Action
pub mod Keeps
pub mod Returns
pub mod Paths
pub mod Package
pub mod Audit
pub mod State
pub mod Network
pub mod Sessions
pub mod Nonces
pub mod Grants
pub mod Submission
mod Tests
