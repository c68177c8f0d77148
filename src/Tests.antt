-- ===== src/Tests.antt =====
-- Runs of the definitions on small inputs, and the theorems at concrete inputs.
pub mod Sample
pub mod Runs
pub mod Examples
pub mod Walks
pub mod Checks
pub mod Further
pub mod Documents
pub mod Nodes
