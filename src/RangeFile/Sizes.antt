-- ===== src/RangeFile/Sizes.antt =====
-- The lengths that `serve_file` of rust/dion_extension/src/range_file.rs announces.
use dion_runtime.Base.{
  ℕ, zero, suc, ◌-◌, ◌≤◌, ◌≡◌, refl, sym, ap, ◌∙◌, false, Option, none, some, [], ◌∷◌, ◌++◌, codes,
  arith, Text, string_eq, ok, length, Result-cases, inl, inr, Bool-cases,
}
use dion_runtime.Base.Maps.{lookup}
use dion_runtime.Base.Decimal.{decimal}
use dion_runtime.RangeFile.Range.{HttpRange, range_len, parse_range}
use dion_runtime.RangeFile.Parses.{Within, parse_range-Within}
use dion_runtime.RangeFile.Serve.{
  Files, Response, take, drop, whole, part, unsatisfiable, error_response, serve_range, serve_open,
  serve_file, mime_or_guess,
}

length-take : (n : ℕ) (t : Text) → n ≤ length t → length (take n t) ≡ n
unfolding take
length-take zero t h = refl
length-take (suc n) [] h = absurd (omega arith)
length-take (suc n) (c ∷ cs) h = omega (arith, length-take n cs (omega arith))

length-drop : (n : ℕ) (t : Text) → length (drop n t) ≡ length t - n
unfolding drop
length-drop zero t = omega arith
length-drop (suc n) [] = omega arith
length-drop (suc n) (c ∷ cs) = omega (arith, length-drop n cs)

-- The response announces no length, or the length of its body.
abbrev pub Sized : Response → Type 0
Sized r = (t : Text) → lookup "content-length" r.headers ≡ some t → t ≡ decimal (length r.body)

error-Sized : (status : ℕ) (message : Text) → Sized (error_response status message)
unfolding lookup
error-Sized status message t h = absurd (cc h)

unsatisfiable-Sized : (len : ℕ) → Sized (unsatisfiable len)
unfolding lookup
unsatisfiable-Sized len t h = absurd (cc h)

whole-Sized : (mime body : Text) → Sized (whole mime (length body) body)
unfolding lookup
whole-Sized mime body t h = cc h

part-Sized :
    (mime contents : Text) (range : HttpRange)
    → Within (length contents) (some (some range))
    → Sized (part mime (length contents) range contents)
unfolding lookup
part-Sized mime contents range (low, high) t h =
    let n : length (take (range_len range) (drop range.start contents)) ≡ range_len range =
      length-take (range_len range) (drop range.start contents)
        (omega (arith, length-drop range.start contents)) in
    let announced : decimal (range_len range) ≡ t = cc h in sym announced ∙ ap decimal (sym n)

module _ (files : Files) where
  open files use {File, open_file, metadata_len, seek, bytes}

  serve_range-Sized :
      (file : File) (mime : Text) (found : Option (Option HttpRange))
      → Within (length (bytes file)) found
      → Sized (serve_range files file mime (length (bytes file)) found)
  serve_range-Sized file mime none w = whole-Sized mime (bytes file)
  serve_range-Sized file mime (some none) w = unsatisfiable-Sized (length (bytes file))
  serve_range-Sized file mime (some (some range)) w = elim (Result-cases (seek file range.start)) [
    | inl (a, e) ↦ rw (e, serve_range) (part-Sized mime (bytes file) range w)
    | inr (text, e) ↦ rw (e, serve_range) (error-Sized 500 (codes "failed to seek: " ++ text))
  ]

  serve_open-Sized :
      (path : Text) (content_type range : Option Text) (file : File)
      → ((len : ℕ) → metadata_len file ≡ ok len → len ≡ length (bytes file))
      → Sized (serve_open files path content_type false range file)
  serve_open-Sized path content_type range file told = elim (Result-cases (metadata_len file)) [
    | inl (len, m) ↦
        rw (m, serve_open, told len m)
          (serve_range-Sized file (mime_or_guess content_type path)
            (parse_range range (length (bytes file)))
            (parse_range-Within range (length (bytes file))))
    | inr (text, m) ↦ rw (m, serve_open) (error-Sized 500 (codes "failed to stat file: " ++ text))
  ]

  -- With metadata that tells the number of a file's bytes: whatever the file, its type and the Range
  -- header, the response to a request that is not HEAD announces no Content-Length or the length
  -- of its body.
  pub serve_file-Sized :
      (path : Text) (content_type range : Option Text)
      → ((file : File) (len : ℕ) → metadata_len file ≡ ok len → len ≡ length (bytes file))
      → Sized (serve_file files path content_type false range)
  unfolding serve_file
  serve_file-Sized path content_type range told = elim (Result-cases (open_file path)) [
    | inl (file, e) ↦ rw (e, serve_file) (serve_open-Sized path content_type range file (told file))
    | inr (fault, e) ↦ elim (Bool-cases fault.is_not_found) [
      | inl missing ↦
          rw (e, serve_file, missing) (error-Sized 404 (codes "file not found: " ++ fault.text))
      | inr other ↦
          rw (e, serve_file, other) (error-Sized 403 (codes "failed to open file: " ++ fault.text))
    ]
  ]
