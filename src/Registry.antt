-- ===== src/Registry.antt =====
-- registry/mod.rs: the catalogue of node kinds.
pub mod KindId
pub mod Kind
pub mod Catalogue
pub mod Validation
pub mod Builtin
pub mod Document
pub mod PortResolution
