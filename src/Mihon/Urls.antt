-- ===== src/Mihon/Urls.antt =====
-- The helpers on URLs of rust/mihon/src/repo.rs, and how they fit together.
use dion_runtime.Base.{
  Bool, ◌&&◌, not, Option, none, some, List, [], ◌∷◌, ◌++◌, Text, codes, ◌==◌, nat_eq, list_eq,
  strip_prefix, any, if◌then◌else◌,
}
use dion_runtime.Base.Texts.{
  ends_with, trim_end_matches, rsplit_once, cut, cut_rest, or_else, unwrap_or,
}
use dion_runtime.UnixPath.{slash}

abbrev index_suffixes : List Text
index_suffixes = codes ".json" ∷ codes ".pb" ∷ codes ".pb.gz" ∷ []

-- Whether a URL names an index file.
unfoldable pub is_index_url : Text → Bool
unfolding ends_with
is_index_url url = any (λ (s : Text). ends_with url s) index_suffixes

unfoldable pub normalize_index_url : Text → Text
unfolding is_index_url trim_end_matches
normalize_index_url url =
    if is_index_url url then url else trim_end_matches slash url ++ codes "/index.min.json"

-- Everything before the last slash.
unfoldable pub repo_base_url : Text → Text
unfolding rsplit_once
repo_base_url index_url = elim (rsplit_once slash index_url) [
  | none ↦ index_url
  | some (front, back) ↦ front
]

abbrev without_scheme : Text → Text
without_scheme url =
    unwrap_or (or_else (strip_prefix (codes "https://") url) (strip_prefix (codes "http://") url))
      url

-- The first two parts of a path, if both are there and not empty.
abbrev owner_and_repo : Text → Option Text → Option Text
owner_and_repo owner none = none
owner_and_repo owner (some rest) =
    let repo = cut slash rest in
    if not (owner == []) && not (repo == []) then some (owner ++ slash ∷ repo) else none

abbrev github_name : Option Text → Option Text
github_name none = none
github_name (some rest) = owner_and_repo (cut slash rest) (cut_rest slash rest)

unfoldable pub derive_repo_name : Text → Text
unfolding cut cut_rest
derive_repo_name url =
    let stripped = without_scheme url in
    unwrap_or (github_name (strip_prefix (codes "raw.githubusercontent.com/") stripped))
      (cut slash stripped)
