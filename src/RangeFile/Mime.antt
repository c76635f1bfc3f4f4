-- ===== src/RangeFile/Mime.antt =====
-- `guess_mime` of rust/dion_extension/src/range_file.rs.
use dion_runtime.Base.{
  ℕ, ◌+◌, Option, none, some, List, [], ◌∷◌, Text, String, ◌==◌, nat_eq, list_eq, codes, leb, ◌&&◌,
  if◌then◌else◌, map, any,
}
use dion_runtime.UnixPath.{extension}

-- `str::to_ascii_lowercase`
abbrev lower : ℕ → ℕ
lower c = if leb b'A' c && leb c b'Z' then c + 32 else c

unfoldable pub to_ascii_lowercase : Text → Text
to_ascii_lowercase t = map lower t

-- The arms of the `match`, in order.
abbrev mime_table : List (List String × String)
mime_table =
    (("mp4" ∷ "m4v" ∷ []), "video/mp4")
    ∷ (("mkv" ∷ []), "video/x-matroska")
    ∷ (("webm" ∷ []), "video/webm")
    ∷ (("avi" ∷ []), "video/x-msvideo")
    ∷ (("mov" ∷ "qt" ∷ []), "video/quicktime")
    ∷ (("ts" ∷ "m2ts" ∷ []), "video/mp2t")
    ∷ (("wmv" ∷ []), "video/x-ms-wmv")
    ∷ (("flv" ∷ []), "video/x-flv")
    ∷ (("3gp" ∷ []), "video/3gpp")
    ∷ (("mp3" ∷ []), "audio/mpeg")
    ∷ (("m4a" ∷ "m4b" ∷ []), "audio/mp4")
    ∷ (("aac" ∷ []), "audio/aac")
    ∷ (("flac" ∷ []), "audio/flac")
    ∷ (("ogg" ∷ "oga" ∷ "opus" ∷ []), "audio/ogg")
    ∷ (("wav" ∷ []), "audio/wav")
    ∷ (("png" ∷ []), "image/png")
    ∷ (("jpg" ∷ "jpeg" ∷ []), "image/jpeg")
    ∷ (("gif" ∷ []), "image/gif")
    ∷ (("webp" ∷ []), "image/webp")
    ∷ (("avif" ∷ []), "image/avif")
    ∷ (("bmp" ∷ []), "image/bmp")
    ∷ (("svg" ∷ []), "image/svg+xml")
    ∷ (("json" ∷ []), "application/json")
    ∷ (("txt" ∷ "log" ∷ []), "text/plain; charset=utf-8")
    ∷ (("html" ∷ "htm" ∷ []), "text/html; charset=utf-8")
    ∷ (("css" ∷ []), "text/css; charset=utf-8")
    ∷ (("js" ∷ "mjs" ∷ []), "text/javascript; charset=utf-8")
    ∷ (("vtt" ∷ []), "text/vtt")
    ∷ (("srt" ∷ []), "application/x-subrip")
    ∷ (("pdf" ∷ []), "application/pdf")
    ∷ (("epub" ∷ []), "application/epub+zip")
    ∷ (("zip" ∷ "cbz" ∷ []), "application/zip")
    ∷ (("rar" ∷ "cbr" ∷ []), "application/vnd.rar")
    ∷ []

-- The first arm with the extension.
unfoldable pub mime_in : List (List String × String) → Text → String
mime_in [] ext = "application/octet-stream"
mime_in ((extensions, mime) ∷ arms) ext =
    let rest = mime_in arms ext in if any (λ e. codes e == ext) extensions then mime else rest

abbrev pub mime_of : Option Text → String
mime_of none = "application/octet-stream"
mime_of (some ext) = mime_in mime_table (to_ascii_lowercase ext)

unfoldable pub guess_mime : Text → String
guess_mime path = mime_of (extension path)
