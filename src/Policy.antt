-- ===== src/Policy.antt =====
-- The Host policy ledger of one Run: backend/src/work_assistant/execution_policy.py.
pub mod Violation
pub mod State
pub mod Reserve
pub mod Steps
pub mod Calls
pub mod Events
pub mod Evidence
pub mod Results
pub mod Invariant
pub mod Runs
pub mod Limits
pub mod Admission
pub mod Verdicts
pub mod Outcomes
pub mod Plan
pub mod Kernel
pub mod Execute
pub mod Metering
pub mod Tests
