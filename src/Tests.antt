-- ===== src/Tests.antt =====
-- The theorems applied to concrete data, and runs of the functions.
mod Signatures
mod Responses
mod Retries
mod AccountStore
mod Stream
mod Names
mod Durations
mod Upstream
mod Outcomes
mod Answers
mod Requests
mod Statistics
