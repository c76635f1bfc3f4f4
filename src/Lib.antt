-- ===== src/Lib.antt =====
-- dion-runtime: the runtime that loads source extensions for a reader, in Rust.
--
-- An extension is a script with a private data directory. The runtime keeps for it the permissions
-- that the user granted, the accounts and the settings that it defined, and a cache of values; it
-- serves files of its data to players over a local proxy. The stores are loaded from the host
-- (the `ExtensionClient` trait) when an extension starts and saved after each change.
--
-- Which file models which part:
-- Client: the part of the trait `ExtensionClient` (rust/core/src/client_data.rs) that the stores
--   call, and serde_json's two functions, as parameters. What the theorems ask of them is in
--   IsPersistent, IsFaithful, IsNeverBlank and ReadsBack.
-- UnixPath: `std::path` on Unix, over code points.
-- Permission: `Permission::allows` (rust/core/src/data/permission.rs); Permission/Store:
--   `PermissionStore` (rust/core/src/store/permission.rs), each method a function from the store to
--   the store and its result; Permission/Allows and Permission/StoreLaws: the proofs.
-- Auth: `Account`, `AuthData` and `AuthCreds` (rust/core/src/data/auth.rs); Auth/Store:
--   `AuthStore` (rust/core/src/store/auth.rs), `get_mut` as `get_account`; Auth/Merges, Auth/Logins and Auth/Reload:
--   the proofs.
-- Settings: rust/core/src/data/settings.rs; Settings/Store: `SettingStore`
--   (rust/core/src/store/settings.rs), its two maps as association lists; the rest are proofs.
-- Cache: rust/dion_extension/src/cache.rs. Cache/Types has the data and the platform (tokio::fs,
--   serde_json and the key hash, as parameters), Cache/Exec the operations on a handle's state and
--   the disk, Cache/Handle the helpers of `CacheInner`, Cache/Ops its operations (`keys` and `size`
--   as `live_keys` and `live_size`), Cache/Evict `collect_evictions_locked`, Cache/Manager
--   `CacheManager` (`open` as `open_cache`). The other files of Cache hold proofs: Cache/Triples has
--   the rules for results and invariants, Cache/Disk what is asked of the file system, and
--   Cache/History sequences of calls.
-- RangeFile: rust/dion_extension/src/range_file.rs. RangeFile/Range has `HttpRange` and
--   `parse_range`, RangeFile/Mime `guess_mime`, RangeFile/Serve `serve_file` over a file system that
--   is a parameter; the rest are proofs.
-- Filesystem: rust/dion_extension/src/filesystem.rs. Filesystem/Normalize has `normalize_path` and its
--   helpers, Filesystem/Access `prepare_path`, `resolve_for_access` and `ensure_access`, with
--   `canonicalize` as a parameter; the rest are proofs.
-- Proxy: the registry of extensions and the routing of requests in
--   rust/dion_extension/src/proxy.rs, with the calls that a request leads to as parameters.
-- Timestamp: rust/core/src/data/timestamp.rs, over chrono's parsers as parameters; Timestamp/Digits:
--   the proof.
-- Extension: the descriptions of extensions and repositories, of rust/core/src/data/extension.rs and
--   rust/core/src/data/extension_repo.rs.
-- ExtensionManager: rust/dion_extension/src/extension_manager.rs. ExtensionManager/Metadata has
--   `validate_id`, `ExtensionMetadata` and `peek_manifest_string`, ExtensionManager/Repos
--   `DionRepoIndex`, ExtensionManager/Platform the host, the network, tokio::fs and
--   `DionExtension::create` as parameters, and ExtensionManager/Install the methods of
--   `DionExtensionAdapter`, actions on the state of the world (the two branches of `install` are
--   `install_http` and `install_file`); the rest are proofs. They speak of a platform that notes each
--   change of a file (`logged`).
-- Metadata: rust/dion_extension/src/metadata.rs, over the libraries that parse the formats.
--   Metadata/Detect has `detect`, Metadata/Rar `RarArchive`, Metadata/Chapters `chapter_list`,
--   Metadata/Documents the mapping of each format, Metadata/Inspect `inspect` and
--   `MetadataArchive` (`open`, `inspect`, `entries` and `read` as `open_archive`, `inspect_archive`,
--   `archive_entries` and `read_archive`); the rest are proofs.
-- Mihon: rust/mihon/src/repo.rs and the operations on repositories of rust/mihon/src/adapter.rs.
--   Mihon/Types has the data, Mihon/Urls the helpers on URLs, Mihon/Lenient the visitors of lenient
--   numbers, Mihon/Mapping the mapping of each wire format, Mihon/Fetch the fetch flow, over the
--   network and the decoders (serde_json, prost, gzip), and Mihon/Adapter `fetch_repo_index` and its
--   callers; the other files there are proofs. Mihon/Requests counts the requests of any network (`counted`).
-- Mihon/Apk: rust/mihon/src/apk. Mihon/Apk/Cursor has `Cursor` and byteorder, Mihon/Apk/Elements the
--   elements and the parser's stack, Mihon/Apk/Manifest `BinaryXmlParser` (its loop as
--   `parse_chunks`), Mihon/Apk/Metadata `MihonExtensionMetadata`; the rest are proofs.
-- Mihon/Dto: rust/mihon/src/mapping/dto.rs. Mihon/Dto/Types has the data and the part of
--   rust/core/src/data/source.rs that it is mapped to, Mihon/Dto/Entries the conversions of entries,
--   chapters and pages, Mihon/Dto/Novel `split_novel_text`, Mihon/Dto/Videos `videos_to_source`;
--   Mihon/Dto/Subtitles: the proof.
-- Mihon/Filters and Mihon/Sources: rust/mihon/src/extension.rs. Mihon/Filters has the conversions of
--   filters and preferences to settings and back, Mihon/Sources `MihonExtension` over the bridge to
--   the Java side (`reload`, `browse`, `search` and `apply_preferences`; `MihonSourceType::parse` as
--   `parse_source_type`); Mihon/Merges and Mihon/Choices: the proofs.
-- Base: helpers that the parts share. Tests: a platform and a host in memory, and the theorems at
--   concrete inputs.
--
-- Conventions. Numbers are natural; a cast to `u64` is written as a remainder by 2 ^ 64. Text that
-- the program walks is the list of its code points. A `HashMap` is an association list with
-- distinct keys, whose order stands for an arbitrary one. A call that changes the host or the disk
-- returns it changed also where it fails.
--
-- Fuel. The loop of evictions by the number of entries (`evict_entries`) runs on fuel, the length of
-- the index: each turn but the last removes an entry, so that the loop always ends before its fuel.
-- The loop of `normalize_path` (`walk`) runs on fuel, the number of characters; each turn but the
-- last takes one at least. The digits of a number (Base/Decimal) run on fuel one above the number,
-- of which each turn takes a tenth. `fetch_store_inner` runs on fuel one above MAX_STORE_REDIRECTS:
-- each redirect takes one, and the code itself gives up at that depth. The loop over the headers of
-- a RAR archive (`read_from`) takes the fuel as an argument; one above the number of headers is
-- enough. The loop over the chunks of a manifest (`parse_chunks`) runs on fuel one above the number of
-- bytes; a chunk of size 0 ends the loop, and any other takes a byte at least.
--
-- What is not modelled. Lock poisoning; two tasks that interleave on one handle (the engine of an
-- extension runs its tasks one at a time, and the compare-and-exchange loop of `next_tick` then
-- succeeds at once); a wall clock that moves during an operation; Windows paths; `disk_usage`; the
-- conversion of requests between HTTP and JSON; log output; the text of the errors that scripts see.
-- The panic of `serve_file` on a content type that is no value of an HTTP header.
-- Of `MihonExtension`, `detail`, `source`, the flag `enabled` and a panic of a task of the bridge.
-- The temporary file of a RAR archive is the value that unrar opens. The script engine, the Java
-- virtual machine and the glue that binds them and the Dart side are left out, as are generated code
-- and the export of schemas.
mod Base
pub mod Client
pub mod UnixPath
pub mod Permission
pub mod Cache
pub mod Auth
pub mod Settings
pub mod RangeFile
pub mod Extension
pub mod ExtensionManager
pub mod Mihon
pub mod Metadata
pub mod Filesystem
pub mod Proxy
pub mod Timestamp
mod Tests
