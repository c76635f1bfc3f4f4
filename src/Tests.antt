-- ===== src/Tests.antt =====
-- Examples: the theorems at concrete inputs, and runs of the definitions.
mod MemoryPlatform
mod MemoryClient
mod CacheExamples
mod PermissionExamples
mod NilCodec
mod StoreExamples
mod SettingExamples
mod FileExamples
mod TimestampExamples
mod RepoExamples
mod MetadataExamples
mod ManagerExamples
mod ApkExamples
mod DtoExamples
mod SourceExamples
