-- ===== src/Graph.antt =====
-- graph: what stands before the resolvers.
pub mod Scope
