-- ===== src/Cache.antt =====
-- rust/dion_extension/src/cache.rs: persistent caches of an extension.
pub mod Types
pub mod Evict
pub mod Shrinks
pub mod Candidates
pub mod Limits
pub mod Evicts
pub mod Evicted
pub mod Disk
pub mod Exec
pub mod Triples
pub mod Sound
pub mod Keeps
pub mod History
pub mod Writes
pub mod Stores
pub mod Reads
pub mod Removes
pub mod Gets
pub mod Histories
pub mod Handle
pub mod Ops
pub mod Manager
