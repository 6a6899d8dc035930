-- ===== src/Sse.antt =====
-- src/cloudcode/sse.rs: the parser that turns the upstream's server-sent events into the client's.
pub mod Parser
pub mod Parts
pub mod Response
pub mod Protocol
pub mod Stream
pub mod Content
pub mod Feed
pub mod Chunks
