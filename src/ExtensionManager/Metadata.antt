-- ===== src/ExtensionManager/Metadata.antt =====
-- The manifest of an extension in rust/dion_extension/src/extension_manager.rs: the comment in the
-- first line of its script. serde_json and semver are parameters.
use mathlib.Core.List.{reverse}
use dion_runtime.Base.{
  ℕ, Bool, true, false, ◌||◌, ◌&&◌, Option, none, some, List, [], ◌∷◌, Text, codes, ◌==◌, nat_eq,
  list_eq, contains, strip_prefix, if◌then◌else◌, Result, ok, err, ok_or, ◌>>=◌,
}
use dion_runtime.Base.Texts.{cut}
use dion_runtime.Permission.{Permission}
use dion_runtime.Settings.{Carried, Setting, SettingKind}
use dion_runtime.Auth.{Account}
use dion_runtime.Extension.{MediaType, ExtensionType, ExtensionData}

pub data ManagerError : Type 0 where
  unsafe_id : Text → ManagerError
  host_failed io_failed network_failed json_failed empty_file no_marker bad_metadata : ManagerError
  not_utf8 unknown_protocol not_absolute load_failed cleanup_failed not_found : ManagerError

abbrev pub has_char : Text → ℕ → Bool
has_char t c = contains t c

-- Whether two dots stand next to each other.
abbrev pub has_dots : Text → Bool
has_dots [] = false
has_dots (c ∷ []) = false
has_dots (c ∷ d ∷ cs) = (c == b'.' && d == b'.') || has_dots (d ∷ cs)

unfoldable pub is_unsafe_id : Text → Bool
is_unsafe_id id =
    id == []
    || id == codes "."
    || id == codes ".."
    || has_dots id
    || has_char id b'/'
    || has_char id b'\\'
    || has_char id b':'

unfoldable pub validate_id : Text → Result ManagerError (Unit {0})
unfolding is_unsafe_id
validate_id id = if is_unsafe_id id then err (unsafe_id id) else ok tt

pub record ExtensionMetadata (x : Carried) : Type 0 where
  pub id : Text
  pub name : Text
  pub url : Text
  pub icon : Text
  pub desc : Option Text
  pub authors : List Text
  pub tags : List Text
  pub lang : List Text
  pub nsfw : Bool
  pub media_type : List MediaType
  pub extension_type : List ExtensionType
  pub repo : Option Text
  pub version : Text
  pub license : Text
  pub api_version : Text
  pub settings : List (SettingKind × List (Text × Setting x))
  pub accounts : List Account
  pub permissions : List Permission

-- semver, the version of the package, and serde_json at the metadata.
pub record Manifests : Type 1 where
  pub carried : Carried
  pub Version : Type 0
  pub VersionReq : Type 0
  pub parse_version : Text → Option Version
  pub parse_req : Text → Option VersionReq
  pub matches : VersionReq → Version → Bool
  pub pkg_version : Text
  pub from_str : Text → Option (ExtensionMetadata carried)

abbrev pub some_if_any {ℓ} : {A : Type ℓ} → List A → Option (List A)
some_if_any [] = none
some_if_any (x ∷ xs) = some (x ∷ xs)

module _ (m : Manifests) where
  open m use {
    carried, Version, VersionReq, parse_version, parse_req, matches, pkg_version, from_str,
  }

  abbrev req_matches : Option VersionReq → Version → Bool
  req_matches none v = false
  req_matches (some req) v = matches req v

  unfoldable pub is_compatible : ExtensionMetadata carried → Bool
  is_compatible d = elim (parse_version pkg_version) [
    | none ↦ false
    | some version ↦ req_matches (parse_req d.api_version) version
  ]

  unfoldable pub into_extension_data : ExtensionMetadata carried → ExtensionData
  unfolding is_compatible
  into_extension_data d = record {
    id = d.id;
    name = d.name;
    url = d.url;
    icon = d.icon;
    desc = d.desc;
    author = d.authors;
    tags = d.tags;
    lang = d.lang;
    nsfw = d.nsfw;
    media_type = d.media_type;
    extension_type = d.extension_type;
    repo = d.repo;
    version = d.version;
    license = d.license;
    compatible = is_compatible d;
    permissions = some_if_any d.permissions;
  }

  -- A carriage return at the end of a line is not part of it.
  abbrev without_return : Text → Text
  without_return [] = []
  without_return (c ∷ cs) = if c == b'\r' then cs else c ∷ cs

  -- `contents.lines().next()`
  unfoldable pub first_line : Text → Option Text
  unfolding cut
  first_line [] = none
  first_line (c ∷ cs) = some (ended (has_char (c ∷ cs) b'\n') (cut b'\n' (c ∷ cs)))
    where
      ended : Bool → Text → Text
      ended true line = reverse (without_return (reverse line))
      ended false line = line

  unfoldable pub peek_manifest_string : Text → Result ManagerError ExtensionData
  unfolding first_line into_extension_data
  peek_manifest_string contents = ok_or (first_line contents) empty_file >>= λ line.
      ok_or (strip_prefix (codes "//") line) no_marker >>= λ metadata.
      ok_or (from_str metadata) bad_metadata >>= λ d. ok (into_extension_data d)
