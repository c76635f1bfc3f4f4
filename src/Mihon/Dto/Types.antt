-- ===== src/Mihon/Dto/Types.antt =====
-- The data of rust/mihon/src/mapping/dto.rs, and the entries and sources of
-- rust/core/src/data/source.rs. What they only carry is a parameter.
use dion_runtime.Base.{Bool, Option, List, Text}
use dion_runtime.Extension.{MediaType, Link}
use dion_runtime.Timestamp.{ℤ}

pub record Embedded : Type 1 where
  pub F32 : Type 0
  pub DateTime : Type 0
  pub CustomUi : Type 0
  pub Row : Type 0
  pub MixedContent : Type 0
  pub TextStyle : Type 0
  pub ImageListAudio : Type 0
  pub Chapter : Type 0

pub record EntryId : Type 0 where
  pub uid : Text
  pub iddata : Option Text

pub record EpisodeId : Type 0 where
  pub uid : Text
  pub iddata : Option Text

pub data ReleaseStatus : Type 0 where
  releasing complete unknown : ReleaseStatus

module _ (x : Embedded) where
  pub record Entry : Type 0 where
    pub id : EntryId
    pub url : Text
    pub title : Text
    pub media_type : MediaType
    pub cover : Option Link
    pub author : Option (List Text)
    pub rating : Option x.F32
    pub views : Option x.F32
    pub length : Option ℤ

  pub record EntryList : Type 0 where
    pub hasnext : Option Bool
    pub length : Option ℤ
    pub content : List Entry

  pub record Episode : Type 0 where
    pub id : EpisodeId
    pub name : Text
    pub description : Option Text
    pub url : Text
    pub cover : Option Link
    pub timestamp : Option x.DateTime
    pub announced : Option Bool

  pub record EntryDetailed : Type 0 where
    pub id : EntryId
    pub url : Text
    pub titles : List Text
    pub author : Option (List Text)
    pub ui : Option x.CustomUi
    pub meta : Option (List (Text × Text))
    pub media_type : MediaType
    pub status : ReleaseStatus
    pub description : Text
    pub language : Text
    pub cover : Option Link
    pub poster : Option Link
    pub episodes : List Episode
    pub genres : Option (List Text)
    pub rating : Option x.F32
    pub views : Option x.F32
    pub length : Option ℤ

  pub data Paragraph : Type 0 where
    text : (content : Text) (style : Option x.TextStyle) → Paragraph
    mixed : (content : List x.MixedContent) → Paragraph
    custom_ui : (ui : x.CustomUi) → Paragraph
    table : (columns : List x.Row) → Paragraph

pub record StreamSource : Type 0 where
  pub name : Text
  pub lang : Text
  pub url : Link

pub record Subtitles : Type 0 where
  pub title : Text
  pub lang : Text
  pub url : Link

pub data Source (x : Embedded) : Type 0 where
  epub pdf : (link : Link) → Source x
  imagelist : (links : List Link) (audio : Option (List x.ImageListAudio)) → Source x
  video :
      (sources : List StreamSource) (sub : List Subtitles) (chapters : Option (List x.Chapter))
      → Source x
  audio : (sources : List StreamSource) (chapters : Option (List x.Chapter)) → Source x
  paragraphlist :
      (paragraphs : List (Paragraph x)) (audio : Option (List x.ImageListAudio)) → Source x

pub data MihonSourceType : Type 0 where
  manga anime novel : MihonSourceType

abbrev pub Headers : Type 0
Headers = Option (List (Text × Text))

pub record MangaDto : Type 0 where
  pub url : Text
  pub title : Text
  pub artist : Option Text
  pub author : Option Text
  pub description : Option Text
  pub genre : Option Text
  pub status : ℤ
  pub thumbnail_url : Option Text
  pub thumbnail_headers : Headers
  pub initialized : Bool

pub record MangasPageDto : Type 0 where
  pub mangas : List MangaDto
  pub has_next_page : Bool

pub record ChapterDto (x : Embedded) : Type 0 where
  pub url : Text
  pub name : Text
  pub date_upload : ℤ
  pub chapter_number : x.F32
  pub scanlator : Option Text

pub record EpisodeDto (x : Embedded) : Type 0 where
  pub url : Text
  pub name : Text
  pub date_upload : ℤ
  pub episode_number : x.F32
  pub scanlator : Option Text

pub record PageDto : Type 0 where
  pub index : ℤ
  pub url : Text
  pub image_url : Option Text
  pub headers : Headers

pub record SubtitleTrackDto : Type 0 where
  pub url : Text
  pub lang : Text

pub record VideoDto : Type 0 where
  pub url : Text
  pub quality : Option Text
  pub video_url : Option Text
  pub headers : Headers
  pub subtitle_tracks : Option (List SubtitleTrackDto)
