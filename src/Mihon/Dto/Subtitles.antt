-- ===== src/Mihon/Dto/Subtitles.antt =====
-- The subtitles of a list of videos: each URL once.
use dion_runtime.Base.{
  ◌≡◌, refl, sym, ap, ◌∙◌, arith, Bool, false, ◌||◌, List, [], ◌∷◌, ◌++◌, Text, ◌==◌, nat_eq,
  list_eq, list_beq_iff, contains, any, Bool-cases, inl, inr,
}
use dion_runtime.Base.Prefix.{contains_eq}
use dion_runtime.Base.Texts.{unwrap_or}
use dion_runtime.Mihon.Dto.Types.{Subtitles, Headers, SubtitleTrackDto, VideoDto}
use dion_runtime.Mihon.Dto.Videos.{
  subtitle_of, Collected, add_track, add_tracks, add_videos, subtitles_of,
}

abbrev pub urls_of : List Subtitles → List Text
urls_of [] = []
urls_of (s ∷ ss) = s.url.url ∷ urls_of ss

-- No text stands twice.
abbrev pub IsUnique : List Text → Type 0
IsUnique [] = Unit
IsUnique (t ∷ ts) = (contains ts t ≡ false) × IsUnique ts

-- Whether one of the tracks, and one of the videos, has a URL.
abbrev pub has_track : Text → List SubtitleTrackDto → Bool
has_track u ts = any (λ (t : SubtitleTrackDto). u == t.url) ts

abbrev pub has_subtitle : Text → List VideoDto → Bool
has_subtitle u vs = any (λ (v : VideoDto). has_track u (unwrap_or v.subtitle_tracks [])) vs

contains-append :
    (ts : List Text) (u t : Text) → contains (ts ++ t ∷ []) u ≡ (contains ts u || u == t)
contains-append [] u t = ground arith
contains-append (s ∷ ts) u t = ground (arith, contains-append ts u t)

append-IsUnique :
    (ts : List Text) (t : Text) → IsUnique ts → contains ts t ≡ false → IsUnique (ts ++ t ∷ [])
append-IsUnique [] t unique new = (refl, tt)
append-IsUnique (s ∷ ts) t (apart, unique) new = (
  contains-append ts s t ∙ ground (arith, apart, new, list_beq_iff s t, list_beq_iff t s),
  append-IsUnique ts t unique (ground (arith, new)),
)

urls-append :
    (ss : List Subtitles) (s : Subtitles) → urls_of (ss ++ s ∷ []) ≡ urls_of ss ++ s.url.url ∷ []
urls-append [] s = refl
urls-append (x ∷ ss) s = ap (λ r. x.url.url ∷ r) (urls-append ss s)

-- The subtitles have the URLs that were seen, each once.
pub record IsCollected (s : Collected) : Type 0 where
  pub same : (u : Text) → contains s.seen_sub_urls u ≡ contains (urls_of s.subs) u
  pub unique : IsUnique (urls_of s.subs)

add_track-IsCollected :
    (h : Headers) (t : SubtitleTrackDto) (s : Collected)
    → IsCollected s
    → IsCollected (add_track h t s)
unfolding add_track subtitle_of
add_track-IsCollected h t s inv = elim (Bool-cases (contains s.seen_sub_urls t.url)) [
  | inl seen ↦ rw seen inv
  | inr new ↦ rw new (record {
    same = λ u.
        ap (λ b. u == t.url || b) (inv.same u)
        ∙ ground arith
        ∙ sym (contains-append (urls_of s.subs) u t.url)
        ∙ ap (λ r. contains r u) (sym (urls-append s.subs (subtitle_of h t)));
    unique =
        rw (urls-append s.subs (subtitle_of h t))
          (append-IsUnique (urls_of s.subs) t.url inv.unique (sym (inv.same t.url) ∙ new));
  })
]

add_track-urls :
    (h : Headers) (t : SubtitleTrackDto) (s : Collected) (u : Text)
    → IsCollected s
    → contains (urls_of (add_track h t s).subs) u ≡ (contains (urls_of s.subs) u || u == t.url)
unfolding add_track subtitle_of
add_track-urls h t s u inv = elim (Bool-cases (contains s.seen_sub_urls t.url)) [
  | inr new ↦ rw new (
      ap (λ r. contains r u) (urls-append s.subs (subtitle_of h t))
      ∙ contains-append (urls_of s.subs) u t.url)
  | inl seen ↦ rw seen (elim (Bool-cases (u == t.url)) [
    | inl same ↦
        let held = sym (inv.same t.url) ∙ seen in
        rw same (contains_eq (urls_of s.subs) u t.url same ∙ held ∙ ground (arith, held))
    | inr other ↦ rw other (ground arith)
  ])
]

-- What collecting leaves: the URLs held before, and those of the tracks.
add_tracks-urls :
    (h : Headers) (ts : List SubtitleTrackDto) (s : Collected)
    → IsCollected s
    → IsCollected (add_tracks h ts s)
      × ((u : Text)
          → contains (urls_of (add_tracks h ts s).subs) u
            ≡ (contains (urls_of s.subs) u || has_track u ts))
unfolding add_tracks
add_tracks-urls h [] s inv = (inv, λ u. ground arith)
add_tracks-urls h (t ∷ ts) s inv =
    let rest = add_tracks-urls h ts (add_track h t s) (add_track-IsCollected h t s inv) in
    (rest.0, λ u. rest.1 u ∙ rw (add_track-urls h t s u inv) (ground arith))

add_videos-urls :
    (vs : List VideoDto) (s : Collected)
    → IsCollected s
    → IsCollected (add_videos vs s)
      × ((u : Text)
          → contains (urls_of (add_videos vs s).subs) u
            ≡ (contains (urls_of s.subs) u || has_subtitle u vs))
unfolding add_videos
add_videos-urls [] s inv = (inv, λ u. ground arith)
add_videos-urls (v ∷ vs) s inv =
    let tracks = unwrap_or v.subtitle_tracks [] in
    let here = add_tracks-urls v.headers tracks s inv in
    let rest = add_videos-urls vs (add_tracks v.headers tracks s) here.0 in
    (rest.0, λ u. rest.1 u ∙ rw (here.1 u) (ground arith))

-- The subtitles of a list of videos have the URL of each track of each video, no other URL, and none
-- twice.
pub subtitles_of-IsUnique :
    (videos : List VideoDto) (u : Text)
    → IsUnique (urls_of (subtitles_of videos))
      × (contains (urls_of (subtitles_of videos)) u ≡ has_subtitle u videos)
unfolding subtitles_of
subtitles_of-IsUnique videos u =
    let all =
      add_videos-urls videos (record { seen_sub_urls = []; subs = [] })
        (record { same = λ t. refl; unique = tt }) in
    (all.0.unique, all.1 u)
