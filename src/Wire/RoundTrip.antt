-- ===== src/Wire/RoundTrip.antt =====
-- What arrives is what was sent.
pub mod Enums
pub mod Metrics
pub mod Lists
pub mod Events
pub mod Machine
pub mod Samples
pub mod Merge
pub mod Delta
pub mod Merged
pub mod ListForms
pub mod Refusals
pub mod Projected
pub mod Specs
pub mod Updates
