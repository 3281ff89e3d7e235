-- ===== src/Usage.antt =====
-- Provider usage metering: backend/src/work_assistant/usage.py.
pub mod Metric
pub mod Run
pub mod Ledger
pub mod Snapshot
pub mod Tests
