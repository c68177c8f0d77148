-- ===== src/Engine.antt =====
-- engine/: the walk over a graph in topological order.
pub mod Topo
pub mod Activation
pub mod Undelivered
pub mod Walk
pub mod Stepping
