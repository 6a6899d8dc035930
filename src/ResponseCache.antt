-- ===== src/ResponseCache.antt =====
-- src/cache.rs: the response cache with a time to live and LRU eviction.
pub mod Keys
pub mod Cache
pub mod Invariant
pub mod Calls
pub mod Reads
