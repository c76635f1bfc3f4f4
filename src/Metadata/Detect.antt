-- ===== src/Metadata/Detect.antt =====
-- `detect` of rust/dion_extension/src/metadata.rs and its helpers. The zip crate is a parameter.
use dion_runtime.Base.{
  ℕ, zero, suc, ◌+◌, Bool, false, ◌||◌, ◌&&◌, Option, none, some, List, [], ◌∷◌, map, Text, codes,
  ◌==◌, nat_eq, list_eq, any, contains, is_prefix, length, leb, trim, if◌then◌else◌,
}
use dion_runtime.Base.Texts.{map_option, rsplit_once}
use dion_runtime.RangeFile.Range.{and_then}
use mathlib.Core.List.{reverse}
use dion_runtime.Metadata.Types.{FormatKind}

abbrev pub to_ascii_lowercase : ℕ → ℕ
to_ascii_lowercase c = if leb b'A' c && leb c b'Z' then c + 32 else c

abbrev is_separator : ℕ → Bool
is_separator c = c == b'/' || c == b'\\'

-- What follows the last separator: a text given from its end, up to the first one.
unfoldable pub until_separator : Text → Text
until_separator [] = []
until_separator (c ∷ cs) = let rest = until_separator cs in if is_separator c then [] else c ∷ rest

-- A name without the dot that it begins with.
abbrev without_dot : Text → Text
without_dot [] = []
without_dot (c ∷ cs) = if c == b'.' then cs else c ∷ cs

unfoldable pub hint_extension : Text → Option Text
unfolding until_separator rsplit_once
hint_extension hint =
    let name = without_dot (reverse (until_separator (reverse (trim hint)))) in
    map_option (λ (p : Text × Text). map to_ascii_lowercase p.1) (rsplit_once b'.' name)

abbrev pub hint_is : Option Text → List Text → Bool
hint_is hint extensions = elim (and_then hint hint_extension) [
  | none ↦ false
  | some ext ↦ contains extensions ext
]

-- The bytes from one offset to another, where there are enough.
abbrev pub drop_bytes : ℕ → Text → Text
drop_bytes zero bytes = bytes
drop_bytes (suc n) [] = []
drop_bytes (suc n) (b ∷ bs) = drop_bytes n bs

abbrev audio_magic : List Text
audio_magic =
    codes "ID3"
    ∷ codes "fLaC"
    ∷ codes "OggS"
    ∷ codes "RIFF"
    ∷ (b'M' ∷ b'A' ∷ b'C' ∷ 0x96 ∷ [])
    ∷ codes "MP+"
    ∷ []

abbrev rar_magic : Text
rar_magic = b'R' ∷ b'a' ∷ b'r' ∷ b'!' ∷ 0x1a ∷ 0x07 ∷ []

-- The frame sync of MPEG: eleven bits that are set.
abbrev is_frame_sync : Text → Bool
is_frame_sync (a ∷ b ∷ bytes) = a == 0xff && leb 0xe0 b
is_frame_sync _ = false

abbrev kind_named : Text → Option FormatKind
kind_named ext =
    if ext == codes "epub"
    then some FormatKind.epub
    else if contains (map codes ("cbz" ∷ "zip" ∷ "ctbc" ∷ [])) ext
    then some FormatKind.zip
    else if contains (map codes ("cbr" ∷ "rar" ∷ [])) ext
    then some FormatKind.rar
    else if ext == codes "pdf"
    then some FormatKind.pdf
    else if contains (map codes ("mp4" ∷ "m4a" ∷ "m4b" ∷ "m4p" ∷ "m4r" ∷ "mp4v" ∷ [])) ext
    then some FormatKind.mp4
    else if contains
        (map codes
          ("mp3" ∷ "flac" ∷ "ogg" ∷ "oga" ∷ "opus" ∷ "wav" ∷ "ape" ∷ "aac" ∷ "aif" ∷ "aiff" ∷ []))
        ext
    then some FormatKind.audio
    else none

-- The text of an entry of a zip archive, if the archive opens and the entry is there.
module _ (zip_text : Text → Text → Option Text) where
  unfoldable pub zip_mimetype : Text → Option Text
  zip_mimetype bytes = map_option trim (zip_text bytes (codes "mimetype"))

  abbrev is_epub : Text → Option Text → Bool
  is_epub bytes hint =
      elim (zip_mimetype bytes) [ none ↦ false | some t ↦ t == codes "application/epub+zip" ]
      || hint_is hint (codes "epub" ∷ [])

  unfoldable pub detect : Text → Option Text → Option FormatKind
  unfolding zip_mimetype hint_extension
  detect bytes hint =
      if leb 4 (length bytes) && is_prefix (codes "PK") bytes
      then (if is_epub bytes hint then some FormatKind.epub else some FormatKind.zip)
      else if is_prefix rar_magic bytes
      then some FormatKind.rar
      else if is_prefix (codes "%PDF-") bytes
      then some FormatKind.pdf
      else if leb 12 (length bytes) && is_prefix (codes "ftyp") (drop_bytes 4 bytes)
      then some FormatKind.mp4
      else if any (λ (magic : Text). is_prefix magic bytes) audio_magic
      then some FormatKind.audio
      else if is_frame_sync bytes
      then some FormatKind.audio
      else and_then (and_then hint hint_extension) kind_named
