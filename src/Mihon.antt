-- ===== src/Mihon.antt =====
-- rust/mihon/src/repo.rs and the calls of it in rust/mihon/src/adapter.rs: the indices of
-- repositories of Mihon extensions.
pub mod Types
pub mod Urls
pub mod Lenient
pub mod Mapping
pub mod Languages
pub mod Fetch
pub mod Requests
pub mod Redirects
pub mod UrlLaws
pub mod Adapter
pub mod Listed
pub mod Apk
pub mod Dto
pub mod Filters
pub mod Sources
pub mod Merges
pub mod Choices
