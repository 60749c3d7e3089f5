-- ===== src/Wire/Schema.antt =====
-- The messages of the windows schema.
pub mod Enums
pub mod Metrics
pub mod Lists
pub mod Events
pub mod Machine
pub mod Samples
pub mod Updates
