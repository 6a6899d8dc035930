-- ===== src/Server.antt =====
-- src/server.rs: what the handlers do around the client, the parser and the accounts.
pub mod Checks
pub mod Replies
pub mod Thinking
pub mod Outcome
pub mod Limits
pub mod Credentials
