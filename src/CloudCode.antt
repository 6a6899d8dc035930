-- ===== src/CloudCode.antt =====
-- src/cloudcode/client.rs: the client of the upstream API, with its retries and its failover.
pub mod Status
pub mod Rounds
pub mod Send
pub mod Rations
pub mod Finish
pub mod Answered
pub mod Answers
pub mod Perseveres
pub mod Told
pub mod Permit
pub mod Calls
pub mod Promises
