-- ===== src/Metadata/Types.antt =====
-- The data of rust/dion_extension/src/metadata.rs.
use dion_runtime.Base.{ℕ, Bool, Option, List, Text}

pub data FormatKind : Type 0 where
  epub zip rar pdf mp4 audio : FormatKind

pub record Creator : Type 0 where
  pub name : Text
  pub roles : List Text

pub record Identifier : Type 0 where
  pub scheme : Option Text
  pub value : Text

pub record ResourceInfo : Type 0 where
  pub path : Text
  pub media_type : Option Text

pub record TocItem : Type 0 where
  pub title : Option Text
  pub path : Text

pub record EpubMetadata : Type 0 where
  pub title : Option Text
  pub creators : List Creator
  pub publishers : List Text
  pub languages : List Text
  pub published : Option Text
  pub description : Option Text
  pub identifiers : List Identifier
  pub subjects : List Text
  pub cover_path : Option Text
  pub resources : List ResourceInfo
  pub toc : List TocItem
  pub spine : List Text

pub record ArchiveEntry : Type 0 where
  pub path : Text
  pub size : Option ℕ
  pub is_dir : Bool

pub record ArchiveMetadata : Type 0 where
  pub entries : List ArchiveEntry

pub record PdfMetadata : Type 0 where
  pub title : Option Text
  pub author : Option Text
  pub subject : Option Text
  pub keywords : List Text
  pub creator : Option Text
  pub producer : Option Text
  pub creation_date : Option Text
  pub mod_date : Option Text
  pub pages : ℕ
  pub version : Option Text

pub record Chapter : Type 0 where
  pub title : Option Text
  pub start_ms : ℕ
  pub duration_ms : Option ℕ

pub record Mp4Metadata : Type 0 where
  pub title : Option Text
  pub artist : Option Text
  pub album : Option Text
  pub album_artist : Option Text
  pub year : Option Text
  pub genre : Option Text
  pub track : Option ℕ
  pub track_total : Option ℕ
  pub disc : Option ℕ
  pub disc_total : Option ℕ
  pub duration_ms : Option ℕ
  pub description : Option Text
  pub chapters : List Chapter

pub record AudioMetadata : Type 0 where
  pub title : Option Text
  pub artist : Option Text
  pub album : Option Text
  pub year : Option ℕ
  pub genre : Option Text
  pub track : Option ℕ
  pub duration_ms : Option ℕ

pub data Metadata : Type 0 where
  epub : EpubMetadata → Metadata
  archive : ArchiveMetadata → Metadata
  pdf : PdfMetadata → Metadata
  mp4 : Mp4Metadata → Metadata
  audio : AudioMetadata → Metadata

pub record InspectOutput : Type 0 where
  pub metadata : Metadata
  pub artwork : Option Text
