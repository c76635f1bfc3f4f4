-- ===== src/Mihon/Apk.antt =====
-- rust/mihon/src/apk: the binary manifest of an APK and the metadata that it carries.
pub mod Elements
pub mod Cursor
pub mod Manifest
pub mod Ends
pub mod Nesting
pub mod Metadata
