-- ===== src/Runtime.antt =====
-- runtime/: events, port wrappers, identity and options.
pub mod Events
pub mod Port
pub mod Pause
pub mod Identity
pub mod Options
pub mod Feed
