-- ===== src/Analysis.antt =====
-- The checks of a graph before it is run.
pub mod GraphConnectivity
pub mod GraphPolicy
