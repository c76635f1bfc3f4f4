-- ===== src/Cache/Types.antt =====
-- The data of rust/dion_extension/src/cache.rs and what it takes from its platform.
use dion_runtime.Base.{
  ℕ, ◌/◌, ◌%◌, ◌^◌, max, Bool, false, Option, none, some, List, Text, String, Result, codes, leb,
}
use dion_runtime.Client.{Fault, Codec}

abbrev pub u64_mod : ℕ
u64_mod = 2 ^ 64

abbrev pub max_name_len : ℕ
max_name_len = 64

abbrev pub max_key_len : ℕ
max_key_len = 1024

abbrev pub index_version : ℕ
index_version = 1

-- A `Duration`, in nanoseconds.
abbrev pub Duration : Type 0
Duration = ℕ

pub record CachePolicy : Type 0 where
  pub default_ttl : Option Duration
  pub max_entries : Option ℕ
  pub max_bytes : Option ℕ

pub data CacheValue (J : Type 0) : Type 0 where
  json : J → CacheValue J
  binary : Text → CacheValue J

pub record CacheEntryMeta : Type 0 where
  pub hash : Text
  pub is_binary : Bool
  pub size : ℕ
  pub expires_at_ms : Option ℕ
  pub last_access : ℕ

abbrev pub Index : Type 0
Index = List (String × CacheEntryMeta)

pub record IndexSnapshot : Type 0 where
  pub version : ℕ
  pub entries : Index

-- A file name as `std::path` takes it apart: the stem and the extension.
pub record FileName : Type 0 where
  pub stem : Text
  pub extension : Option Text

-- The paths below a cache's directory.
pub data CachePath : Type 0 where
  in_dir in_entries : FileName → CachePath

-- `path.with_extension(ext)`
abbrev pub with_extension : CachePath → Text → CachePath
with_extension (in_dir f) ext = in_dir (record f { extension = some ext })
with_extension (in_entries f) ext = in_entries (record f { extension = some ext })

abbrev pub index_file : CachePath
index_file = in_dir (record { stem = codes "index"; extension = some (codes "json") })

-- A hash is hexadecimal, so it is a name with no extension.
abbrev pub entry_file : Text → CachePath
entry_file hash = in_entries (record { stem = hash; extension = none })

-- Why an operation of the cache failed.
pub data CacheError : Type 0 where
  zero_ttl bad_name bad_key : CacheError
  fault : Fault → CacheError

-- The wall clock (`SystemTime::now()` since the epoch) at one operation.
pub record Now : Type 0 where
  pub millis : ℕ
  pub nanos : ℕ

-- What the cache uses and does not implement: the file system below the cache's directory
-- (tokio::fs), serde_json, and the standard library's SipHash of a key in hexadecimal.
pub record Platform : Type 1 where
  pub Json : Type 0
  pub value_codec : Codec Json
  pub index_codec : Codec IndexSnapshot
  pub key_hash : String → Text
  pub Disk : Type 0
  pub read : CachePath → Disk → Result Fault Text
  pub write : CachePath → Text → Disk → Result Fault (Unit {0}) × Disk
  pub rename : CachePath → CachePath → Disk → Result Fault (Unit {0}) × Disk
  pub remove_file : CachePath → Disk → Result Fault (Unit {0}) × Disk
  pub create_entries_dir : Disk → Result Fault (Unit {0}) × Disk
  pub remove_cache_dir : Disk → Result Fault (Unit {0}) × Disk

-- `duration.as_millis().max(1) as u64`
unfoldable pub duration_to_ms : Duration → ℕ
duration_to_ms d = max (d / 1_000_000) 1 % u64_mod

-- The clock has reached an expiry.
unfoldable pub is_past : Now → Option ℕ → Bool
is_past now none = false
is_past now (some expires_at) = leb expires_at (now.millis % u64_mod)

unfoldable pub is_expired : Now → CacheEntryMeta → Bool
is_expired now meta = is_past now meta.expires_at_ms

abbrev pub snapshot_of : Index → IndexSnapshot
snapshot_of index = record { version = index_version; entries = index }
