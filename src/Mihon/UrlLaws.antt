-- ===== src/Mihon/UrlLaws.antt =====
-- How the helpers on URLs of rust/mihon/src/repo.rs fit together.
use mathlib.Core.List.{reverse, reverse-append, reverse-reverse}
use dion_runtime.Base.{◌≡◌, refl, Bool-cases, true, false, inl, inr, ◌++◌, Text, codes}
use dion_runtime.Base.Texts.{ends_with, trim_end_matches, rsplit_once, cut, cut_rest}
use dion_runtime.UnixPath.{slash}
use dion_runtime.Mihon.Urls.{is_index_url, normalize_index_url, repo_base_url}

abbrev index_file : Text
index_file = codes "/index.min.json"

from_end : (t : Text) → reverse (t ++ index_file) ≡ reverse index_file ++ reverse t
from_end t = reverse-append t index_file

index_file-is_index_url : (t : Text) → is_index_url (t ++ index_file) ≡ true
unfolding is_index_url ends_with
index_file-is_index_url t = rw (from_end t) refl

index_file-base : (t : Text) → repo_base_url (t ++ index_file) ≡ t
unfolding repo_base_url rsplit_once cut_rest cut
index_file-base t = rw (from_end t, rsplit_once, repo_base_url) (reverse-reverse t)

-- Normalizing again changes nothing.
pub normalize-normalize :
    (url : Text) → normalize_index_url (normalize_index_url url) ≡ normalize_index_url url
unfolding normalize_index_url
normalize-normalize url = elim (Bool-cases (is_index_url url)) [
  | inl index ↦ rw index (rw index refl)
  | inr bare ↦ rw (bare, index_file-is_index_url (trim_end_matches slash url)) refl
]

-- The directory of a bare URL that was normalized is the URL without the slashes at its end.
pub base-normalize :
    (url : Text)
    → is_index_url url ≡ false
    → repo_base_url (normalize_index_url url) ≡ trim_end_matches slash url
unfolding normalize_index_url
base-normalize url bare = rw bare (index_file-base (trim_end_matches slash url))
