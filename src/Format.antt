-- ===== src/Format.antt =====
-- src/format: the message types of both sides of the proxy, and the JSON values in them.
pub mod Json
pub mod Anthropic
pub mod Google
pub mod Requests
