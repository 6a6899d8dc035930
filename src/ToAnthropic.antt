-- ===== src/ToAnthropic.antt =====
-- src/format/to_anthropic.rs: answers as a whole, converted or put together from events.
pub mod Build
pub mod Held
pub mod Calls
pub mod Collect
pub mod EndToEnd
pub mod Convert
