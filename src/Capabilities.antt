-- ===== src/Capabilities.antt =====
-- backend/src/work_assistant/capabilities.py: registered Tools, their registry, and the decision of
-- a capability policy.
pub mod Values
pub mod Tools
pub mod Registry
pub mod Decision
pub mod Tests
