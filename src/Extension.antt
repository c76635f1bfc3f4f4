-- ===== src/Extension.antt =====
-- rust/core/src/data/extension.rs, rust/core/src/data/extension_repo.rs and the media types of
-- rust/core/src/data/source.rs: what an extension tells of itself. A `HashSet` is a list.
use dion_runtime.Base.{ℕ, ◌+◌, ◌-◌, ◌^◌, ◌%◌, Bool, Option, List, ◌∷◌, Text, ltb, if◌then◌else◌}
use dion_runtime.Base.Decimal.{decimal}
use dion_runtime.Permission.{Permission}
use dion_runtime.Timestamp.{ℤ, pos, negsuc}

pub data MediaType : Type 0 where
  video comic audio book unknown : MediaType

pub data SourceType : Type 0 where
  epub pdf imagelist video audio paragraphlist : SourceType

pub data SourceOpenType : Type 0 where
  download stream : SourceOpenType

pub data ExtensionType : Type 0 where
  entry_provider : (has_search : Bool) → ExtensionType
  source_processor :
      (sourcetypes : List SourceType) (opentype : List SourceOpenType) → ExtensionType
  entry_processor : (trigger_map_entry trigger_on_entry_activity : Bool) → ExtensionType
  url_handler : (url_patterns : List Text) → ExtensionType

pub data ExtensionKind : Type 0 where
  entry_provider source_processor entry_processor url_handler : ExtensionKind

-- `From<&ExtensionType>`
abbrev pub kind_of : ExtensionType → ExtensionKind
kind_of (ExtensionType.entry_provider s) = ExtensionKind.entry_provider
kind_of (ExtensionType.source_processor s o) = ExtensionKind.source_processor
kind_of (ExtensionType.entry_processor m a) = ExtensionKind.entry_processor
kind_of (ExtensionType.url_handler u) = ExtensionKind.url_handler

pub record Link : Type 0 where
  pub url : Text
  pub header : Option (List (Text × Text))

pub record ExtensionData : Type 0 where
  pub id : Text
  pub name : Text
  pub url : Text
  pub icon : Text
  pub desc : Option Text
  pub author : List Text
  pub tags : List Text
  pub lang : List Text
  pub nsfw : Bool
  pub media_type : List MediaType
  pub extension_type : List ExtensionType
  pub repo : Option Text
  pub version : Text
  pub license : Text
  pub compatible : Bool
  pub permissions : Option (List Permission)

pub record RemoteExtension : Type 0 where
  pub remote_id : Text
  pub id : Text
  pub name : Text
  pub url : Text
  pub cover : Option Link
  pub version : Text
  pub compatible : Bool
  pub permissions : Option (List Permission)
  pub authors : List Text
  pub lang : List Text
  pub tags : List Text
  pub nsfw : Bool
  pub media_type : List MediaType
  pub extension_kinds : List ExtensionKind

pub record RemoteExtensionResult : Type 0 where
  pub content : List RemoteExtension
  pub hasnext : Option Bool
  pub length : Option ℤ

pub record ExtensionRepo : Type 0 where
  pub remote_id : Text
  pub name : Text
  pub description : Text
  pub url : Text

-- `format!("{}", n)` for an i64.
abbrev pub print_int : ℤ → Text
print_int (pos n) = decimal n
print_int (negsuc n) = b'-' ∷ decimal (n + 1)

-- `n as i32`
abbrev pub as_i32 : ℕ → ℤ
as_i32 n = let r = n % 2 ^ 32 in if ltb r (2 ^ 31) then pos r else negsuc (2 ^ 32 - r - 1)
