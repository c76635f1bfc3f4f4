-- ===== src/Metadata/Documents.antt =====
-- How rust/dion_extension/src/metadata.rs maps what the libraries (rbook, pdf, mp4ameta, lofty) tell
-- of a document. What they tell is the input.
use dion_runtime.Base.{
  ℕ, not, ◌||◌, Option, none, some, List, [], ◌∷◌, ◌++◌, map, Text, codes, ◌==◌, nat_eq, list_eq,
  strip_prefix, trim, is_blank, filter, ltb, if◌then◌else◌,
}
use dion_runtime.Base.Texts.{unwrap_or, or_else, map_option}
use dion_runtime.UnixPath.{split_on}
use dion_runtime.RangeFile.Range.{and_then}
use dion_runtime.Metadata.Types.{Creator, TocItem, InspectOutput, epub, pdf, mp4, audio}
use dion_runtime.Metadata.Chapters.{Date, pdf_date_to_iso, chapter_list, duration_ms}

-- `rbook::Epub`.
pub record EpubCreator : Type 0 where
  pub value : Text
  pub main_role : Option Text
  pub roles : List Text

pub record ManifestEntry : Type 0 where
  pub id : Text
  pub href_path : Text
  pub media_type : Text

-- An entry of the flattened table of contents.
pub record TocEntry : Type 0 where
  pub href_path : Option Text
  pub label : Text

pub record EpubFile : Type 0 where
  pub title : Option Text
  pub creators : List EpubCreator
  pub publishers : List Text
  pub languages : List Text
  pub published : Option Text
  pub description : Option Text
  pub identifiers : List (Option Text × Text)
  pub tags : List Text
  pub manifest : List ManifestEntry
  pub cover_image : Option ManifestEntry
  pub toc : List TocEntry
  pub spine_idrefs : List Text

-- `roles.dedup()`: neighbours that are equal become one.
unfoldable pub dedup : List Text → List Text
dedup [] = []
dedup (r ∷ rs) = elim (dedup rs) [ [] ↦ r ∷ [] | s ∷ ss ↦ if r == s then s ∷ ss else r ∷ s ∷ ss ]

abbrev option_list {ℓ} : {A : Type ℓ} → Option A → List A
option_list none = []
option_list (some a) = a ∷ []

-- `iter().filter_map(f)`
unfoldable pub filter_map {ℓ κ} : {A : Type ℓ} {B : Type κ} → (A → Option B) → List A → List B
filter_map f [] = []
filter_map f (x ∷ xs) = option_list (f x) ++ filter_map f xs

unfoldable pub creator_of : EpubCreator → Creator
unfolding dedup
creator_of c = record {
  name = c.value;
  roles = dedup (filter (λ (r : Text). not (r == [])) (option_list c.main_role ++ c.roles));
}

abbrev toc_item : TocEntry → Option TocItem
toc_item e =
    map_option
      (λ (path : Text). record {
        title = if trim e.label == [] then none else some (trim e.label);
        path = path;
      })
      e.href_path

-- `manifest.by_id(idref)`
unfoldable pub by_id : Text → List ManifestEntry → Option ManifestEntry
by_id id [] = none
by_id id (e ∷ es) = if e.id == id then some e else by_id id es

abbrev href_path : ManifestEntry → Text
href_path e = e.href_path

unfoldable pub epub_metadata : EpubFile → InspectOutput
unfolding creator_of filter_map by_id
epub_metadata file = record {
  metadata = epub (record {
    title = file.title;
    creators = map creator_of file.creators;
    publishers = file.publishers;
    languages = file.languages;
    published = file.published;
    description = file.description;
    identifiers =
        map (λ (i : Option Text × Text). record { scheme = i.0; value = i.1 }) file.identifiers;
    subjects = file.tags;
    cover_path = map_option href_path file.cover_image;
    resources =
        map (λ (e : ManifestEntry). record { path = e.href_path; media_type = some e.media_type })
          file.manifest;
    toc = filter_map toc_item file.toc;
    spine =
        filter_map (λ (idref : Text). map_option href_path (by_id idref file.manifest))
          file.spine_idrefs;
  });
  artwork = none;
}

-- `pdf::file::File`.
pub record InfoDict : Type 0 where
  pub title : Option Text
  pub author : Option Text
  pub subject : Option Text
  pub keywords : Option Text
  pub creator : Option Text
  pub producer : Option Text
  pub creation_date : Option Date
  pub mod_date : Option Date

pub record PdfFile : Type 0 where
  pub info_dict : Option InfoDict
  pub num_pages : ℕ
  pub version : Option Text

abbrev not_blank : Text → Option Text
not_blank t = if is_blank t then none else some t

abbrev field : (InfoDict → Option Text) → Option InfoDict → Option Text
field get info = and_then (and_then info get) not_blank

unfoldable pub split_keywords : Text → List Text
unfolding split_on
split_keywords keywords =
    filter (λ (k : Text). not (k == []))
      (map trim (split_on (λ (c : ℕ). c == b',' || c == b';') keywords))

unfoldable pub pdf_metadata : PdfFile → InspectOutput
unfolding split_keywords pdf_date_to_iso
pdf_metadata file = record {
  metadata = pdf (record {
    title = field (λ (i : InfoDict). i.title) file.info_dict;
    author = field (λ (i : InfoDict). i.author) file.info_dict;
    subject = field (λ (i : InfoDict). i.subject) file.info_dict;
    keywords =
        unwrap_or (map_option split_keywords (field (λ (i : InfoDict). i.keywords) file.info_dict))
          [];
    creator = field (λ (i : InfoDict). i.creator) file.info_dict;
    producer = field (λ (i : InfoDict). i.producer) file.info_dict;
    creation_date =
        map_option pdf_date_to_iso (and_then file.info_dict (λ (i : InfoDict). i.creation_date));
    mod_date = map_option pdf_date_to_iso (and_then file.info_dict (λ (i : InfoDict). i.mod_date));
    pages = file.num_pages;
    version = map_option (λ (v : Text). unwrap_or (strip_prefix (codes "PDF-") v) v) file.version;
  });
  artwork = none;
}

-- `mp4ameta::Tag`; a track and a disc are a number and a total.
pub record Mp4Tag : Type 0 where
  pub title : Option Text
  pub artist : Option Text
  pub album : Option Text
  pub album_artist : Option Text
  pub year : Option Text
  pub genre : Option Text
  pub track : Option ℕ × Option ℕ
  pub disc : Option ℕ × Option ℕ
  pub duration : ℕ
  pub description : Option Text
  pub chapters : List (ℕ × Text)
  pub artwork : Option Text

unfoldable pub mp4_metadata : Mp4Tag → InspectOutput
unfolding chapter_list duration_ms
mp4_metadata tag = record {
  metadata = mp4 (record {
    title = tag.title;
    artist = tag.artist;
    album = tag.album;
    album_artist = tag.album_artist;
    year = tag.year;
    genre = tag.genre;
    track = tag.track.0;
    track_total = tag.track.1;
    disc = tag.disc.0;
    disc_total = tag.disc.1;
    duration_ms = duration_ms tag.duration;
    description = tag.description;
    chapters = chapter_list tag.chapters tag.duration;
  });
  artwork = tag.artwork;
}

-- `lofty::file::TaggedFile`.
pub record AudioTag : Type 0 where
  pub title : Option Text
  pub artist : Option Text
  pub album : Option Text
  pub year : Option ℕ
  pub genre : Option Text
  pub track : Option ℕ
  pub first_picture : Option Text

pub record TaggedFile : Type 0 where
  pub duration : ℕ
  pub primary_tag : Option AudioTag
  pub first_tag : Option AudioTag

-- A year of 0 is none.
abbrev positive_year : ℕ → Option ℕ
positive_year y = if ltb 0 y then some y else none

unfoldable pub audio_metadata : TaggedFile → InspectOutput
unfolding duration_ms
audio_metadata tagged =
    let tag = or_else tagged.primary_tag tagged.first_tag in
    record {
      metadata = audio (record {
        title = and_then tag (λ (t : AudioTag). t.title);
        artist = and_then tag (λ (t : AudioTag). t.artist);
        album = and_then tag (λ (t : AudioTag). t.album);
        year = and_then (and_then tag (λ (t : AudioTag). t.year)) positive_year;
        genre = and_then tag (λ (t : AudioTag). t.genre);
        track = and_then tag (λ (t : AudioTag). t.track);
        duration_ms = duration_ms tagged.duration;
      });
      artwork = and_then tag (λ (t : AudioTag). t.first_picture);
    }
