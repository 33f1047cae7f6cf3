-- ===== src/Routing.antt =====
-- The routing of a question to a business domain: server/domain/router.py and
-- server/domain/intent.py.
pub mod Calendar
pub mod Intent
pub mod Period
pub mod Parsing
pub mod Proper
pub mod Parsed
mod Tests
