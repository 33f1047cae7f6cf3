-- ===== src/Search.antt =====
-- The retrieval of schema objects: server/search.
pub mod Candidates
pub mod Fusion
pub mod Hybrid
mod Tests
