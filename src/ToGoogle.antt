-- ===== src/ToGoogle.antt =====
-- src/format/to_google.rs: the conversion of requests to the upstream format.
pub mod Schema
pub mod Maps
pub mod Clean
pub mod Enough
pub mod Blocks
pub mod Request
pub mod Kept
pub mod Restored
pub mod Limits
