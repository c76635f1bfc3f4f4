-- ===== src/RangeFile/Serve.antt =====
-- `serve_file` of rust/dion_extension/src/range_file.rs: the response that serves a local file. A
-- body that is streamed in chunks is the bytes of all its chunks.
use dion_runtime.Base.{
  ℕ, zero, suc, Bool, Option, none, some, List, [], ◌∷◌, ◌++◌, Text, String, string_eq, Result, ok,
  err, codes, if◌then◌else◌,
}
use dion_runtime.Base.Decimal.{decimal}
use dion_runtime.RangeFile.Range.{HttpRange, range_len, parse_range}
use dion_runtime.RangeFile.Mime.{guess_mime}

-- Why a file could not be opened, and the text of an error.
pub record OpenFault : Type 0 where
  pub is_not_found : Bool
  pub text : Text

-- The files as tokio::fs gives them. Reading a file from an offset gives its bytes from there on.
pub record Files : Type 1 where
  pub File : Type 0
  pub open_file : Text → Result OpenFault File
  pub metadata_len : File → Result Text ℕ
  pub seek : File → ℕ → Result Text (Unit {0})
  pub bytes : File → Text

pub record Response : Type 0 where
  pub status : ℕ
  pub headers : List (String × Text)
  pub body : Text

unfoldable pub take : ℕ → Text → Text
take zero t = []
take (suc n) [] = []
take (suc n) (c ∷ cs) = c ∷ take n cs

unfoldable pub drop : ℕ → Text → Text
drop zero t = t
drop (suc n) [] = []
drop (suc n) (c ∷ cs) = drop n cs

abbrev pub error_response : ℕ → Text → Response
error_response status message = record {
  status = status;
  headers = ("content-type", codes "text/plain; charset=utf-8") ∷ [];
  body = message;
}

-- The headers of a response with bytes of the file.
abbrev pub file_headers : Text → List (String × Text) → List (String × Text)
file_headers mime rest = ("content-type", mime) ∷ ("accept-ranges", codes "bytes") ∷ rest

abbrev pub whole : Text → ℕ → Text → Response
whole mime len body = record {
  status = 200;
  headers = file_headers mime (("content-length", decimal len) ∷ []);
  body = body;
}

abbrev pub unsatisfiable : ℕ → Response
unsatisfiable len = record {
  status = 416;
  headers = ("content-range", codes "bytes */" ++ decimal len) ∷ [];
  body = [];
}

abbrev pub part : Text → ℕ → HttpRange → Text → Response
part mime len range contents = record {
  status = 206;
  headers = file_headers mime (
      (
        "content-range",
        codes "bytes "
            ++ decimal range.start
            ++ codes "-"
            ++ decimal range.end
            ++ codes "/"
            ++ decimal len,
      )
      ∷ ("content-length", decimal (range_len range))
      ∷ []);
  body = take (range_len range) (drop range.start contents);
}

abbrev pub mime_or_guess : Option Text → Text → Text
mime_or_guess none path = codes (guess_mime path)
mime_or_guess (some mime) path = mime

module _ (files : Files) where
  open files use {File, open_file, metadata_len, seek, bytes}

  abbrev pub serve_range : File → Text → ℕ → Option (Option HttpRange) → Response
  serve_range file mime len none = whole mime len (bytes file)
  serve_range file mime len (some none) = unsatisfiable len
  serve_range file mime len (some (some range)) = elim (seek file range.start) [
    | err text ↦ error_response 500 (codes "failed to seek: " ++ text)
    | ok _ ↦ part mime len range (bytes file)
  ]

  abbrev pub serve_open : Text → Option Text → Bool → Option Text → File → Response
  serve_open path content_type is_head range file = elim (metadata_len file) [
    | err text ↦ error_response 500 (codes "failed to stat file: " ++ text)
    | ok len ↦
        let mime = mime_or_guess content_type path in
        if is_head then whole mime len [] else serve_range file mime len (parse_range range len)
  ]

  -- The path, the type that overrides the guess, whether the method is HEAD, and the Range header.
  unfoldable pub serve_file : Text → Option Text → Bool → Option Text → Response
  serve_file path content_type is_head range = elim (open_file path) [
    | err e ↦
        if e.is_not_found
        then error_response 404 (codes "file not found: " ++ e.text)
        else error_response 403 (codes "failed to open file: " ++ e.text)
    | ok file ↦ serve_open path content_type is_head range file
  ]
