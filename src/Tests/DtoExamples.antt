-- ===== src/Tests/DtoExamples.antt =====
-- The theorem on subtitles at a concrete input, and runs of the splitting of a novel's text.
use dion_runtime.Base.{◌≡◌, refl, none, some, List, [], ◌∷◌, Text, codes, contains, list_eq, nat_eq}
use dion_runtime.Mihon.Dto.Types.{SubtitleTrackDto, VideoDto}
use dion_runtime.Mihon.Dto.Novel.{split_novel_text, clean_html_text}
use dion_runtime.Mihon.Dto.Videos.{subtitles_of}
use dion_runtime.Mihon.Dto.Subtitles.{urls_of, IsUnique, has_subtitle, subtitles_of-IsUnique}

abbrev track : Text → SubtitleTrackDto
track url = record { url = url; lang = codes "English" }

abbrev video_of : List SubtitleTrackDto → VideoDto
video_of tracks = record {
  url = codes "v";
  quality = none;
  video_url = none;
  headers = none;
  subtitle_tracks = some tracks;
}

-- The second video has a subtitle that the first one has too.
abbrev videos : List VideoDto
videos =
    video_of (track (codes "a") ∷ []) ∷ video_of (track (codes "a") ∷ track (codes "b") ∷ []) ∷ []

subtitles_of-IsUnique_example :
    IsUnique (urls_of (subtitles_of videos))
    × (contains (urls_of (subtitles_of videos)) (codes "b") ≡ has_subtitle (codes "b") videos)
subtitles_of-IsUnique_example = subtitles_of-IsUnique videos (codes "b")

urls_of_example : urls_of (subtitles_of videos) ≡ codes "a" ∷ codes "b" ∷ []
unfolding subtitles_of
urls_of_example = refl

-- Text that is in lower case already.
abbrev lower : Text → Text
lower t = t

split_novel_text_examples :
    (split_novel_text lower (codes " <p>One</p><p>Two &amp; three</p> ")
      ≡ codes "One" ∷ codes "Two & three" ∷ [])
    × (split_novel_text lower (codes "One\n\n Two \nThree")
        ≡ codes "One" ∷ codes "Two" ∷ codes "Three" ∷ [])
    × (split_novel_text lower (codes "1 < 2\n3 > 2") ≡ codes "1" ∷ codes "3  2" ∷ [])
    × (clean_html_text (codes "&amp;lt;") ≡ codes "<")
unfolding split_novel_text
split_novel_text_examples = (refl, refl, refl, refl)
