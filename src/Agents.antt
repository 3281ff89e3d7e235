-- ===== src/Agents.antt =====
-- backend/src/work_assistant/agent_definition.py: what an agent may do, validated at startup.
pub mod Pattern
pub mod Definition
pub mod Tests
