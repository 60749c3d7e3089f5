-- ===== src/Wire.antt =====
-- src/wire: the api structs to and from the pipe's messages.
pub mod Outcome
pub mod Schema
pub mod Encode
pub mod Decode
pub mod RoundTrip
pub mod Version
pub mod Session
mod Tests
