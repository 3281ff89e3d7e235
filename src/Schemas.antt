-- ===== src/Schemas.antt =====
-- The public contract: backend/src/work_assistant/schemas.py.
pub mod Fields
pub mod Payload
