-- ===== src/Repository.antt =====
-- The durable state of threads, Runs, messages and events:
-- backend/src/work_assistant/repository.py over the tables of backend/src/work_assistant/models.py.
pub mod Records
pub mod Access
pub mod Views
pub mod Events
pub mod Attempts
pub mod Transitions
pub mod Creation
pub mod Recovery
pub mod Reads
pub mod Lives
pub mod Tests
