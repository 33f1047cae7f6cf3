-- ===== src/Query.antt =====
-- The life of one question: server/domain/query.py, server/domain/sales_scope.py, server/query,
-- server/orchestrator, server/generation/sql.py and server/execution.
pub mod Types
pub mod Scope
pub mod Repository
pub mod Orchestrator
pub mod Execution
pub mod Generation
pub mod Pipeline
pub mod SqlTree
pub mod Validation
pub mod Context
mod Tests
