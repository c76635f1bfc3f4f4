-- ===== src/Tests/RepoExamples.antt =====
-- The theorems on repositories of Mihon extensions at concrete inputs: a network where every URL
-- answers with the same legacy list.
use dion_runtime.Base.{
  ℕ, ◌≡◌, ◌≤◌, refl, true, false, none, some, List, [], ◌∷◌, arith, Text, ok, codes, ◌==◌, nat_eq,
  leb, ltb, All, list_eq, Option, ◌++◌,
}
use dion_runtime.Base.Maps.{insert}
use dion_runtime.Extension.{ExtensionRepo}
use dion_runtime.Timestamp.{pos}
use dion_runtime.Mihon.Types.{
  Floats, RepoStore, RepoExtension, RepoIndex, LegacyExtensionJson, LegacyRepoJson, Source,
  StoreExtension,
}
use dion_runtime.Mihon.Urls.{repo_base_url, normalize_index_url}
use dion_runtime.Mihon.Mapping.{
  repo_extension_from_legacy, repo_extension_from_store, index_to_result,
}
use dion_runtime.Mihon.Fetch.{
  Web, Decoders, get_bytes, fetch_store, fetch_store_inner, fetch_repo, parse_store_payload,
}
use dion_runtime.Mihon.Requests.{counted, fetch_repo-count}
use dion_runtime.Mihon.Redirects.{IsAnswerFor, Known, fetch_store-fuel, fetch_store-legacy}
use dion_runtime.Mihon.Adapter.{Repos, browse_repo, fetch_repo_index}
use dion_runtime.Mihon.Listed.{IsFound, browse-get}
use dion_runtime.Mihon.Languages.{common_language, lang_lem}

-- Numbers in tenths, none of which a text is.
abbrev tenths : Floats
tenths = record {
  F64 = ℕ;
  parse = λ t. none;
  eq = λ a b. a == b;
  lt = ltb;
  le = leb;
  float_1_0 = 10;
  float_1_4 = 14;
  float_1_6 = 16;
  float_2_0 = 20;
}

abbrev web : Web
web = record {
  Net = Unit {0};
  get = λ url net. (ok (record { status = 200; bytes = ok (codes "[]") }), net);
}

abbrev reader : LegacyExtensionJson
reader = record {
  name = codes "Tachiyomi: Reader";
  pkg = codes "a.reader";
  apk = codes "reader.apk";
  lang = codes "en";
  code = pos 3;
  version = codes "1.4.3";
  nsfw = pos 0;
  sources =
      some (record { id = pos 7; lang = codes "en"; name = codes "Reader"; base_url = [] } ∷ []);
}

abbrev decoders : Decoders
decoders = record {
  gunzip = λ t. none;
  legacy_repo = λ t. none;
  legacy_extensions = λ t. some (reader ∷ []);
  store_json = λ t. none;
  store_proto = λ t. none;
  list_json = λ t. none;
  list_proto = λ t. none;
}

abbrev url : Text
url = codes "https://a/repo/index.min.json"

normalize_index_url_examples :
    (normalize_index_url (codes "https://a/repo//") ≡ url)
    × (normalize_index_url (codes "https://a/index.pb") ≡ codes "https://a/index.pb")
    × (repo_base_url url ≡ codes "https://a/repo")
unfolding normalize_index_url repo_base_url
normalize_index_url_examples = (refl, refl, refl)

fetch_repo-count_example : (fetch_repo (counted web) decoders tenths url (0, tt)).1.0 ≤ 21
fetch_repo-count_example = fetch_repo-count web decoders tenths url tt

fetch_store-fuel_example :
    fetch_store_inner web decoders 20 url 0 tt ≡ fetch_store web decoders url tt
fetch_store-fuel_example = fetch_store-fuel web decoders 20 url tt (omega arith)

fetch_store-legacy_example :
    (s : RepoStore) × ((fetch_store web decoders url tt).0 ≡ ok s)
    × ((known : Option LegacyRepoJson × web.Net) × Known web decoders none tt
          (get_bytes web decoders (repo_base_url url ++ codes "/repo.json") tt)
          known
        × IsAnswerFor web decoders url (λ v2. fetch_store_inner web decoders 10 v2 1) known s)
unfolding get_bytes parse_store_payload
fetch_store-legacy_example = fetch_store-legacy web decoders url (codes "[]") none tt tt refl refl

abbrev repo : ExtensionRepo
repo = record { remote_id = url; name = []; description = []; url = [] }

abbrev listed : List (RepoExtension tenths)
listed = repo_extension_from_legacy tenths (codes "https://a/repo") reader ∷ []

abbrev index : RepoIndex tenths
index = record {
  store = record {
    index_url = url;
    name = [];
    badge_label = [];
    signing_key = [];
    is_legacy = true;
    extension_list_url = none;
  };
  extensions = listed;
}

abbrev start : Repos web decoders tenths
start = record { repo_index_cache = []; net = tt }

abbrev browsed : Repos web decoders tenths
browsed = record { repo_index_cache = insert url index []; net = tt }

browse-get_example :
    All (IsFound web decoders tenths repo browsed) (index_to_result tenths listed).content
unfolding browse_repo fetch_repo fetch_repo_index
browse-get_example =
    browse-get web decoders tenths repo start browsed (index_to_result tenths listed) refl

abbrev source : Source
source = record {
  id = pos 7;
  name = codes "Reader";
  language = codes "en";
  home_url = [];
  mirror_urls = [];
  message = none;
}

abbrev twice : StoreExtension
twice = record {
  name = codes "Reader";
  package_name = codes "a.reader";
  resources = none;
  extension_lib = codes "1.4";
  version_code = pos 3;
  version_name = codes "1.4.3";
  content_warning = pos 1;
  sources = source ∷ source ∷ [];
  is_novel = false;
}

lang_lem_example :
    (repo_extension_from_store tenths twice).lang ≡ common_language (codes "en" ∷ codes "en" ∷ [])
lang_lem_example = lang_lem tenths twice
