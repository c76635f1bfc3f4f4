-- ===== src/Mihon/Dto.antt =====
-- rust/mihon/src/mapping/dto.rs: from what the Java side returns to the entries and sources of the
-- runtime.
pub mod Types
pub mod Entries
pub mod Novel
pub mod Videos
pub mod Subtitles
