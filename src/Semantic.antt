-- ===== src/Semantic.antt =====
-- The semantic layer (server/semantic): the metric tables, the lifecycle of a metric, the registry
-- and the verified queries.
pub mod Models
pub mod Lifecycle
pub mod Versions
pub mod Registry
pub mod VerifiedQueries
mod Tests
