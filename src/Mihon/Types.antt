-- ===== src/Mihon/Types.antt =====
-- The data of rust/mihon/src/repo.rs and of its protobuf schema. An f64 and what the code does with
-- it are parameters.
use dion_runtime.Base.{Bool, Option, List, Text}
use dion_runtime.Timestamp.{ℤ}

-- `f64`: reading it, its order, and the numbers that the code names.
pub record Floats : Type 1 where
  pub F64 : Type 0
  pub parse : Text → Option F64
  pub eq : F64 → F64 → Bool
  pub lt : F64 → F64 → Bool
  pub le : F64 → F64 → Bool
  pub float_1_0 : F64
  pub float_1_4 : F64
  pub float_1_6 : F64
  pub float_2_0 : F64

pub record RepoStore : Type 0 where
  pub index_url : Text
  pub name : Text
  pub badge_label : Text
  pub signing_key : Text
  pub is_legacy : Bool
  pub extension_list_url : Option Text

pub record RepoSource : Type 0 where
  pub id : ℤ
  pub name : Text
  pub lang : Text
  pub base_url : Text

pub record RepoExtension (f : Floats) : Type 0 where
  pub name : Text
  pub pkg : Text
  pub apk_url : Text
  pub icon_url : Text
  pub lang : Text
  pub code : ℤ
  pub version : Text
  pub nsfw : Bool
  pub lib_version : Option f.F64
  pub sources : List RepoSource
  pub is_novel : Bool

pub record RepoIndex (f : Floats) : Type 0 where
  pub store : RepoStore
  pub extensions : List (RepoExtension f)

-- The entries of a legacy `index.min.json`.
pub record LegacySourceJson : Type 0 where
  pub id : ℤ
  pub lang : Text
  pub name : Text
  pub base_url : Text

pub record LegacyExtensionJson : Type 0 where
  pub name : Text
  pub pkg : Text
  pub apk : Text
  pub lang : Text
  pub code : ℤ
  pub version : Text
  pub nsfw : ℤ
  pub sources : Option (List LegacySourceJson)

-- `repo.json`.
pub record LegacyRepoMetaJson : Type 0 where
  pub name : Text
  pub short_name : Option Text
  pub website : Text
  pub signing_key_fingerprint : Text

pub record LegacyRepoJson : Type 0 where
  pub index_v2 : Option Text
  pub meta : LegacyRepoMetaJson

-- The messages of the protobuf schema that the code reads.
pub record Resources : Type 0 where
  pub apk_url : Text
  pub icon_url : Text

pub record Source : Type 0 where
  pub id : ℤ
  pub name : Text
  pub language : Text
  pub home_url : Text
  pub mirror_urls : List Text
  pub message : Option Text

pub record StoreExtension : Type 0 where
  pub name : Text
  pub package_name : Text
  pub resources : Option Resources
  pub extension_lib : Text
  pub version_code : ℤ
  pub version_name : Text
  pub content_warning : ℤ
  pub sources : List Source
  pub is_novel : Bool

pub record ExtensionList : Type 0 where
  pub extensions : List StoreExtension

pub record NetworkExtensionStore : Type 0 where
  pub name : Text
  pub badge_label : Text
  pub signing_key : Text
  pub extension_list : Option ExtensionList
  pub extension_list_url : Option Text

-- The JSON form of a store.
pub record ResourcesJson : Type 0 where
  pub apk_url : Text
  pub icon_url : Text

pub record SourceJson : Type 0 where
  pub id : ℤ
  pub name : Text
  pub language : Text
  pub home_url : Text

pub record ExtensionJson : Type 0 where
  pub name : Text
  pub package_name : Text
  pub resources : Option ResourcesJson
  pub extension_lib : Text
  pub version_code : ℤ
  pub version_name : Text
  pub content_warning : ℤ
  pub sources : List SourceJson
  pub is_novel : Bool

pub record ExtensionListJson : Type 0 where
  pub extensions : List ExtensionJson

pub record ContactJson : Type 0 where
  pub website : Text
  pub discord : Option Text

pub record StoreJson : Type 0 where
  pub name : Text
  pub badge_label : Text
  pub signing_key : Text
  pub contact : Option ContactJson
  pub extension_list : Option ExtensionListJson
  pub extension_list_url : Option Text
