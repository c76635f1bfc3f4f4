-- ===== src/Metadata.antt =====
-- rust/dion_extension/src/metadata.rs: the metadata of books, archives, films and music. The
-- parsers of the formats are parameters.
pub mod Types
pub mod Detect
pub mod Rar
pub mod RarLaws
pub mod Chapters
pub mod ChapterLaws
pub mod Documents
pub mod Inspect
pub mod InspectLaws
