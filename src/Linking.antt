-- ===== src/Linking.antt =====
-- Schema linking (server/linking): the graph of the joins between the tables.
pub mod Relations
pub mod JoinGraph
pub mod Completion
mod Tests
