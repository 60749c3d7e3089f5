-- ===== src/Wire/Decode.antt =====
-- src/wire/decode.rs
pub mod Enums
pub mod Metrics
pub mod Lists
pub mod Events
pub mod Machine
pub mod Samples
pub mod Updates
