-- ===== src/RangeFile.antt =====
-- rust/dion_extension/src/range_file.rs: the parsing of `Range` headers and the responses that
-- serve a local file.
pub mod Range
pub mod Parses
pub mod Reads
pub mod Mime
pub mod Serve
pub mod Sizes
