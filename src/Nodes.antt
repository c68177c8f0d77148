-- ===== src/Nodes.antt =====
-- nodes/: the executors that the crate brings for its own kinds.
pub mod Expr
pub mod Lane
pub mod ForEach
pub mod Routing
pub mod Shaping
pub mod Structural
pub mod Passing
pub mod Stores
pub mod Offline
pub mod Calls
