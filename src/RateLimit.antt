-- ===== src/RateLimit.antt =====
-- src/cloudcode/rate_limit.rs: why a request was refused, and how long to wait.
pub mod Reason
pub mod Backoff
pub mod Attempts
pub mod Duration
pub mod Reset
