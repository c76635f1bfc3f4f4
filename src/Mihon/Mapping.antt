-- ===== src/Mihon/Mapping.antt =====
-- How rust/mihon/src/repo.rs maps the entries of an index: from each wire format to
-- `RepoExtension`, and from there to what the host sees.
use dion_runtime.Base.{
  Bool, true, false, ◌||◌, ◌&&◌, Option, none, some, List, [], ◌∷◌, ◌++◌, map, Text, codes, ◌==◌,
  nat_eq, list_eq, length, is_prefix, strip_prefix, contains, trim, if◌then◌else◌,
}
use dion_runtime.Base.Texts.{unwrap_or, map_option, rsplit_once}
use dion_runtime.Timestamp.{ℤ, pos, negsuc}
use dion_runtime.RangeFile.Range.{and_then}
use dion_runtime.Extension.{
  MediaType, ExtensionKind, RemoteExtension, RemoteExtensionResult, ExtensionRepo, print_int,
  as_i32,
}
use dion_runtime.Mihon.Types.{
  Floats, RepoStore, RepoSource, RepoExtension, LegacySourceJson, LegacyExtensionJson, Resources,
  Source, StoreExtension, ExtensionList, NetworkExtensionStore, ResourcesJson, SourceJson,
  ExtensionJson, ExtensionListJson, StoreJson,
}
use dion_runtime.Mihon.Urls.{repo_base_url, derive_repo_name}

abbrev pub novel_pkg_prefix : Text
novel_pkg_prefix = codes "eu.kanade.tachiyomi.novelextension"

abbrev pub anime_pkg_prefix : Text
anime_pkg_prefix = codes "eu.kanade.tachiyomi.animeextension"

abbrev legacy_name_prefix : Text
legacy_name_prefix = codes "Tachiyomi: "

-- The first element of a list.
abbrev pub first {ℓ} : {A : Type ℓ} → List A → Option A
first [] = none
first (x ∷ xs) = some x

-- `iter().collect::<HashSet<_>>()`
unfoldable pub distinct : List Text → List Text
distinct [] = []
distinct (t ∷ ts) = let rest = distinct ts in if contains rest t then rest else t ∷ rest

-- The only language, or "all".
abbrev pub single_or_all : List Text → Text
single_or_all (l ∷ []) = l
single_or_all _ = codes "all"

-- From JSON to the messages of protobuf.
abbrev pub resources_into_proto : ResourcesJson → Resources
resources_into_proto r = record { apk_url = r.apk_url; icon_url = r.icon_url }

abbrev pub source_into_proto : SourceJson → Source
source_into_proto s = record {
  id = s.id;
  name = s.name;
  language = s.language;
  home_url = s.home_url;
  mirror_urls = [];
  message = none;
}

abbrev pub extension_into_proto : ExtensionJson → StoreExtension
extension_into_proto e = record {
  name = e.name;
  package_name = e.package_name;
  resources = map_option resources_into_proto e.resources;
  extension_lib = e.extension_lib;
  version_code = e.version_code;
  version_name = e.version_name;
  content_warning = e.content_warning;
  sources = map source_into_proto e.sources;
  is_novel = e.is_novel;
}

abbrev pub list_into_proto : ExtensionListJson → ExtensionList
list_into_proto l = record { extensions = map extension_into_proto l.extensions }

-- `StoreJson::into_store` and `NetworkExtensionStore::into_store`.
abbrev pub json_into_store : Text → StoreJson → RepoStore
json_into_store index_url s = record {
  index_url = index_url;
  name = s.name;
  badge_label = s.badge_label;
  signing_key = s.signing_key;
  is_legacy = false;
  extension_list_url = s.extension_list_url;
}

abbrev pub proto_into_store : Text → NetworkExtensionStore → RepoStore
proto_into_store index_url s = record {
  index_url = index_url;
  name = s.name;
  badge_label = s.badge_label;
  signing_key = s.signing_key;
  is_legacy = false;
  extension_list_url = s.extension_list_url;
}

-- `content_warning()`: a number that is no warning counts as the first one; whether it is MIXED or
-- more.
abbrev pub is_mixed : ℤ → Bool
is_mixed (pos n) = n == 2 || n == 3
is_mixed (negsuc n) = false

-- `Default::default()` of a text.
abbrev empty : Text
empty = []

abbrev source_from_store : Source → RepoSource
source_from_store s = record { id = s.id; name = s.name; lang = s.language; base_url = s.home_url }

abbrev source_from_legacy : LegacySourceJson → RepoSource
source_from_legacy s = record { id = s.id; name = s.name; lang = s.lang; base_url = s.base_url }

-- `ext.nsfw == 1`
abbrev is_one : ℤ → Bool
is_one (pos n) = n == 1
is_one (negsuc n) = false

-- The id of an extension, from its first source.
abbrev pub mihon_id : RepoSource → Text
mihon_id s = codes "mihon:" ++ print_int s.id

module _ (f : Floats) where
  unfoldable pub parse_lib_version : Text → Option f.F64
  parse_lib_version s = f.parse (trim s)

  unfoldable pub repo_extension_from_store : StoreExtension → RepoExtension f
  unfolding distinct parse_lib_version
  repo_extension_from_store ext = record {
    name = ext.name;
    pkg = ext.package_name;
    apk_url = unwrap_or (map_option (λ (r : Resources). r.apk_url) ext.resources) empty;
    icon_url = unwrap_or (map_option (λ (r : Resources). r.icon_url) ext.resources) empty;
    lang = single_or_all (distinct (map (λ (s : Source). s.language) ext.sources));
    code = ext.version_code;
    version = ext.version_name;
    nsfw = is_mixed ext.content_warning;
    lib_version = parse_lib_version ext.extension_lib;
    sources = map source_from_store ext.sources;
    is_novel = ext.is_novel || is_prefix novel_pkg_prefix ext.package_name;
  }

  -- `filter(|v| (1.0..2.0).contains(v))`
  abbrev plausible : f.F64 → Option f.F64
  plausible v = if f.le f.float_1_0 v && f.lt v f.float_2_0 then some v else none

  unfoldable pub legacy_lib_version : Text → Option f.F64
  unfolding rsplit_once
  legacy_lib_version version =
      and_then (rsplit_once b'.' version) (λ (p : Text × Text). and_then (f.parse p.0) plausible)

  unfoldable pub repo_extension_from_legacy : Text → LegacyExtensionJson → RepoExtension f
  unfolding legacy_lib_version
  repo_extension_from_legacy base ext = record {
    name = unwrap_or (strip_prefix legacy_name_prefix ext.name) ext.name;
    pkg = ext.pkg;
    apk_url = base ++ codes "/apk/" ++ ext.apk;
    icon_url = base ++ codes "/icon/" ++ ext.pkg ++ codes ".png";
    lang = ext.lang;
    code = ext.code;
    version = ext.version;
    nsfw = is_one ext.nsfw;
    lib_version = legacy_lib_version ext.version;
    sources = map source_from_legacy (unwrap_or ext.sources []);
    is_novel = is_prefix novel_pkg_prefix ext.pkg;
  }

  unfoldable pub is_lib_compatible : Option f.F64 → Bool
  is_lib_compatible none = true
  is_lib_compatible (some v) = f.eq f.float_1_4 v || f.eq f.float_1_6 v

  unfoldable pub to_remote : RepoExtension f → RemoteExtension
  unfolding is_lib_compatible
  to_remote e = record {
    id = unwrap_or (map_option mihon_id (first e.sources)) e.pkg;
    remote_id = e.apk_url;
    name = e.name;
    url = unwrap_or (map_option (λ (s : RepoSource). s.base_url) (first e.sources)) empty;
    cover = some (record { url = e.icon_url; header = none });
    version = e.version;
    compatible = is_lib_compatible e.lib_version;
    permissions = none;
    authors = [];
    lang = e.lang ∷ [];
    tags = [];
    nsfw = e.nsfw;
    media_type =
        (if e.is_novel
          then MediaType.book
          else if is_prefix anime_pkg_prefix e.pkg
          then MediaType.video
          else MediaType.comic)
        ∷ [];
    extension_kinds = ExtensionKind.entry_provider ∷ [];
  }

  unfoldable pub index_to_result : List (RepoExtension f) → RemoteExtensionResult
  unfolding to_remote
  index_to_result extensions = record {
    content = map to_remote extensions;
    hasnext = some false;
    length = some (as_i32 (length extensions));
  }

unfoldable pub build_extension_repo : Text → RepoStore → ExtensionRepo
unfolding repo_base_url derive_repo_name
build_extension_repo index_url store =
    let base = repo_base_url index_url in
    record {
      remote_id = index_url;
      name = if store.name == [] then derive_repo_name base else store.name;
      description = [];
      url = base;
    }
