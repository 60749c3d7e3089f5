-- ===== src/State.antt =====
-- crates/core/src/state: the core's picture of the machine.
pub mod Events
pub mod Entry
pub mod Table
pub mod Network
pub mod System
pub mod TestData
mod Tests
