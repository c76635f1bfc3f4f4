-- ===== src/Mihon/Dto/Entries.antt =====
-- The conversions of entries, chapters and pages in rust/mihon/src/mapping/dto.rs. The clock and
-- chrono are parameters.
use dion_runtime.Base.{
  zero, suc, Bool, true, false, Option, none, some, List, [], ◌∷◌, map, Text, codes, ◌==◌, nat_eq,
  list_eq, ltb, if◌then◌else◌,
}
use dion_runtime.Base.Texts.{unwrap_or, map_option, split_text}
use dion_runtime.Timestamp.{ℤ, pos, negsuc}
use dion_runtime.Extension.{MediaType, Link}
use dion_runtime.Mihon.Dto.Types.{
  Embedded, EntryId, EpisodeId, ReleaseStatus, Entry, EntryList, Episode, EntryDetailed, Source,
  imagelist, MihonSourceType, MangaDto, MangasPageDto, ChapterDto, EpisodeDto, PageDto,
}

abbrev media_type_of : MihonSourceType → MediaType
media_type_of MihonSourceType.manga = MediaType.comic
media_type_of MihonSourceType.anime = MediaType.video
media_type_of MihonSourceType.novel = MediaType.book

abbrev status_of : ℤ → ReleaseStatus
status_of (pos n) =
    if n == 1
    then ReleaseStatus.releasing
    else if n == 2
    then ReleaseStatus.complete
    else ReleaseStatus.unknown
status_of (negsuc n) = ReleaseStatus.unknown

abbrev single : Text → List Text
single t = t ∷ []

abbrev cover_of : MangaDto → Option Link
cover_of m =
    map_option (λ (u : Text). record { url = u; header = m.thumbnail_headers }) m.thumbnail_url

-- `a > b` on i64.
abbrev is_after : ℤ → ℤ → Bool
is_after (pos a) (pos b) = ltb b a
is_after (pos a) (negsuc b) = true
is_after (negsuc a) (pos b) = false
is_after (negsuc a) (negsuc b) = ltb a b

unfoldable pub into_link : PageDto → Link
into_link page = record { url = unwrap_or page.image_url page.url; header = page.headers }

unfoldable pub pages_to_source : {x : Embedded} → List PageDto → Source x
unfolding into_link
pages_to_source pages = imagelist (map into_link pages) none

module _ (x : Embedded) (timestamp_millis_opt : ℤ → Option x.DateTime) (now : ℤ) where
  unfoldable pub into_entry : MediaType → MangaDto → Entry x
  into_entry media_type m = record {
    id = record { uid = m.url; iddata = none };
    url = m.url;
    title = m.title;
    media_type = media_type;
    cover = cover_of m;
    author = map_option single m.author;
    rating = none;
    views = none;
    length = none;
  }

  unfoldable pub into_entry_list : MihonSourceType → MangasPageDto → EntryList x
  unfolding into_entry
  into_entry_list source_type page = record {
    hasnext = some page.has_next_page;
    length = none;
    content = map (into_entry (media_type_of source_type)) page.mangas;
  }

  unfoldable pub epoch_millis_to_datetime : ℤ → Option x.DateTime
  epoch_millis_to_datetime (pos zero) = none
  epoch_millis_to_datetime (pos (suc n)) = timestamp_millis_opt (pos (suc n))
  epoch_millis_to_datetime (negsuc n) = none

  abbrev announced_of : ℤ → Option Bool
  announced_of date_upload = if is_after date_upload now then some true else none

  unfoldable pub chapter_into_episode : ChapterDto x → Episode x
  unfolding epoch_millis_to_datetime
  chapter_into_episode c = record {
    id = record { uid = c.url; iddata = none };
    name = c.name;
    description = c.scanlator;
    url = c.url;
    cover = none;
    timestamp = epoch_millis_to_datetime c.date_upload;
    announced = announced_of c.date_upload;
  }

  unfoldable pub episode_into_episode : EpisodeDto x → Episode x
  unfolding epoch_millis_to_datetime
  episode_into_episode c = record {
    id = record { uid = c.url; iddata = none };
    name = c.name;
    description = c.scanlator;
    url = c.url;
    cover = none;
    timestamp = epoch_millis_to_datetime c.date_upload;
    announced = announced_of c.date_upload;
  }

  unfoldable pub into_entry_detailed :
      EntryId → List (ChapterDto x) → MediaType → MangaDto → EntryDetailed x
  unfolding chapter_into_episode split_text
  into_entry_detailed id chapters media_type m = record {
    id = id;
    url = if m.url == [] then id.uid else m.url;
    titles = m.title ∷ [];
    author = map_option single m.author;
    ui = none;
    meta = none;
    media_type = media_type;
    status = status_of m.status;
    description = unwrap_or m.description [];
    language = [];
    cover = cover_of m;
    poster = none;
    episodes = map chapter_into_episode chapters;
    genres = map_option (split_text (codes ", ")) m.genre;
    rating = none;
    views = none;
    length = none;
  }

-- Only the url of what is rebuilt from an id has a meaning.
unfoldable pub from_entry_id : EntryId → MangaDto
from_entry_id id = record {
  url = id.uid;
  title = [];
  artist = none;
  author = none;
  description = none;
  genre = none;
  status = pos 0;
  thumbnail_url = none;
  thumbnail_headers = none;
  initialized = false;
}

module _ {x : Embedded} (float_0 : x.F32) where
  unfoldable pub chapter_from_episode_id : EpisodeId → ChapterDto x
  chapter_from_episode_id id = record {
    url = id.uid;
    name = [];
    date_upload = pos 0;
    chapter_number = float_0;
    scanlator = none;
  }

  unfoldable pub episode_from_episode_id : EpisodeId → EpisodeDto x
  episode_from_episode_id id = record {
    url = id.uid;
    name = [];
    date_upload = pos 0;
    episode_number = float_0;
    scanlator = none;
  }
