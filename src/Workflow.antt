-- ===== src/Workflow.antt =====
-- workflow.rs: documents of the workflow schema.
pub mod Export
pub mod Import
pub mod RoundTrip
