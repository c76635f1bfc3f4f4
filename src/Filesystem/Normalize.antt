-- ===== src/Filesystem/Normalize.antt =====
-- `normalize_path` and its helpers in rust/dion_extension/src/filesystem.rs, on Unix, where
-- `MAIN_SEPARATOR` is `/`.
use mathlib.Core.List.{reverse}
use dion_runtime.Base.{
  ℕ, zero, suc, ◌-◌, Bool, true, false, not, ◌&&◌, ◌||◌, Option, none, some, List, [], ◌∷◌, ◌++◌,
  Text, ◌==◌, nat_eq, list_eq, codes, leb, trim, strip_prefix, if◌then◌else◌, length,
}
use dion_runtime.UnixPath.{slash, ends_in_slash}

abbrev pub backslash : ℕ
backslash = b'\\'

abbrev pub is_sep : ℕ → Bool
is_sep c = c == slash || c == backslash

abbrev pub dot : Text
dot = codes "."

abbrev pub dot_dot : Text
dot_dot = codes ".."

unfoldable pub skip_seps : Text → Text
skip_seps [] = []
skip_seps (c ∷ cs) = let rest = skip_seps cs in if is_sep c then rest else c ∷ cs

-- The characters before the next separator, and the rest.
unfoldable pub span_piece : Text → Text × Text
span_piece [] = ([], [])
span_piece (c ∷ cs) =
    let (piece, rest) = span_piece cs in if is_sep c then ([], c ∷ cs) else (c ∷ piece, rest)

-- The next component and what follows it, in place of the index.
unfoldable pub take_component : Text → Option (Text × Text)
unfolding skip_seps span_piece
take_component chars =
    let (piece, rest) = span_piece (skip_seps chars) in
    if piece == [] then none else some (piece, rest)

abbrev pub or_text : Option Text → Text → Text
or_text none t = t
or_text (some t) _ = t

abbrev pub and_prefix : Text → Option Text → Option Text
and_prefix before none = none
and_prefix before (some rest) = some (before ++ rest)

abbrev pub first_some : Option Text → Option Text → Option Text
first_some none o = o
first_some (some t) o = some t

unfoldable pub strip_extended_prefix : Text → Text
strip_extended_prefix input =
    or_text
      (first_some (and_prefix (codes "\\\\") (strip_prefix (codes "\\\\?\\UNC\\") input))
        (first_some (strip_prefix (codes "\\\\?\\") input) (strip_prefix (codes "\\\\.\\") input)))
      input

-- What stands before the components; a UNC path with no share is returned as it is.
pub data Start : Type 0 where
  verbatim : Start
  start : Text → Bool → Text → Start

abbrev is_letter : ℕ → Bool
is_letter c = (leb b'A' c && leb c b'Z') || (leb b'a' c && leb c b'z')

abbrev to_upper : ℕ → ℕ
to_upper c = if leb b'a' c && leb c b'z' then c - 32 else c

abbrev share_start : Text → Option (Text × Text) → Start
share_start server none = verbatim
share_start server (some (share, rest)) =
    start (codes "\\\\" ++ server ++ codes "\\" ++ share) true rest

abbrev server_start : Option (Text × Text) → Start
server_start none = verbatim
server_start (some (server, rest)) = share_start server (take_component rest)

unfoldable pub start_of : Text → Start
start_of [] = start [] false []
start_of (a ∷ []) = start [] (is_sep a) (a ∷ [])
start_of (a ∷ b ∷ rest) =
    if b == b':' && is_letter a
    then start (to_upper a ∷ b':' ∷ []) true rest
    else if is_sep a && is_sep b
    then server_start (take_component rest)
    else start [] (is_sep a) (a ∷ b ∷ rest)

-- `..` on the components so far, the last one first.
abbrev pub parent_of : Bool → List Text → List Text
parent_of absolute [] = if absolute then [] else dot_dot ∷ []
parent_of absolute (last ∷ stack) =
    if not (last == dot_dot)
    then stack
    else if not absolute
    then dot_dot ∷ last ∷ stack
    else last ∷ stack

abbrev pub push_component : Bool → List Text → Text → List Text
push_component absolute stack component =
    if component == dot
    then stack
    else if component == dot_dot
    then parent_of absolute stack
    else component ∷ stack

-- The `while let` loop. Each round takes a character at least, so the length is fuel enough.
unfoldable pub walk : ℕ → Bool → Text → List Text → List Text
walk zero absolute chars stack = stack
walk (suc fuel) absolute chars stack = elim (take_component chars) [
  | none ↦ stack
  | some found ↦ walk fuel absolute found.1 (push_component absolute stack found.0)
]

-- `components.join("/")`
unfoldable pub join_slash : List Text → Text
join_slash [] = []
join_slash (p ∷ []) = p
join_slash (p ∷ q ∷ ps) = p ++ slash ∷ join_slash (q ∷ ps)

abbrev pub print : Text → Bool → List Text → Text
print prefix absolute components =
    let root = if absolute && prefix == [] then slash ∷ [] else prefix in
    let out =
      if components == []
      then root
      else (if not (root == []) && not (ends_in_slash root) then root ++ slash ∷ [] else root)
        ++ join_slash components in
    if out == [] then dot else out

abbrev pub normalize_from : Text → Start → Text
normalize_from stripped verbatim = stripped
normalize_from stripped (start prefix absolute chars) =
    print prefix absolute (reverse (walk (length chars) absolute chars []))

unfoldable pub normalize_path : Text → Text
unfolding strip_extended_prefix start_of walk
normalize_path input =
    let trimmed = trim input in
    let stripped = strip_extended_prefix trimmed in
    if trimmed == [] then [] else normalize_from stripped (start_of stripped)
