-- ===== src/Filesystem.antt =====
-- rust/dion_extension/src/filesystem.rs: the paths that scripts name, and the access to them.
pub mod Normalize
pub mod Access
pub mod Guards
pub mod Clean
