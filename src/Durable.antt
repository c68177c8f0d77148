-- ===== src/Durable.antt =====
-- durable/: a run checkpointed node by node.
pub mod State
pub mod Retry
pub mod Dispatch
pub mod Frontier
pub mod Replay
pub mod Store
pub mod Coordinator
pub mod RunNode
pub mod Completion
pub mod Human
