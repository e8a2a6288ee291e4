-- ===== src/Active.antt =====
-- Active validation (active_validation/): the safety policy, the planner and the runs of validators.
pub mod Outcome
pub mod Json
pub mod Model
pub mod Registry
pub mod Policy
pub mod Dependencies
pub mod Order
pub mod Selection
pub mod Planner
pub mod Execution
pub mod Correlation
pub mod Run
mod Tests
