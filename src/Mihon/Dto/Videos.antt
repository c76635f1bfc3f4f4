-- ===== src/Mihon/Dto/Videos.antt =====
-- Videos and their subtitles in rust/mihon/src/mapping/dto.rs.
use dion_runtime.Base.{
  none, List, [], ◌∷◌, ◌++◌, map, Text, codes, ◌==◌, nat_eq, list_eq, contains, if◌then◌else◌,
}
use dion_runtime.Base.Texts.{unwrap_or}
use dion_runtime.Mihon.Dto.Types.{
  Embedded, StreamSource, Subtitles, Source, video, Headers, SubtitleTrackDto, VideoDto,
}

unfoldable pub into_stream_source : VideoDto → StreamSource
into_stream_source v = record {
  name = unwrap_or v.quality (codes "Default");
  lang = [];
  url = record { url = unwrap_or v.video_url v.url; header = v.headers };
}

unfoldable pub subtitle_of : Headers → SubtitleTrackDto → Subtitles
subtitle_of headers track = record {
  title = if track.lang == [] then codes "Subtitle" else track.lang;
  lang = [];
  url = record { url = track.url; header = headers };
}

-- The URLs that were seen, and the subtitles so far.
pub record Collected : Type 0 where
  pub seen_sub_urls : List Text
  pub subs : List Subtitles

unfoldable pub add_track : Headers → SubtitleTrackDto → Collected → Collected
unfolding subtitle_of
add_track headers track s = if contains s.seen_sub_urls track.url then s else record {
  seen_sub_urls = track.url ∷ s.seen_sub_urls;
  subs = s.subs ++ subtitle_of headers track ∷ [];
}

unfoldable pub add_tracks : Headers → List SubtitleTrackDto → Collected → Collected
unfolding add_track
add_tracks headers [] s = s
add_tracks headers (t ∷ ts) s = add_tracks headers ts (add_track headers t s)

unfoldable pub add_videos : List VideoDto → Collected → Collected
unfolding add_tracks
add_videos [] s = s
add_videos (v ∷ vs) s = add_videos vs (add_tracks v.headers (unwrap_or v.subtitle_tracks []) s)

unfoldable pub subtitles_of : List VideoDto → List Subtitles
unfolding add_videos
subtitles_of videos = (add_videos videos (record { seen_sub_urls = []; subs = [] })).subs

unfoldable pub videos_to_source : {x : Embedded} → List VideoDto → Source x
unfolding subtitles_of into_stream_source
videos_to_source videos = video (map into_stream_source videos) (subtitles_of videos) none
