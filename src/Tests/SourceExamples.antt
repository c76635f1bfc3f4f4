-- ===== src/Tests/SourceExamples.antt =====
-- The theorem on the choices of the user at a concrete source, and runs of the definitions.
use dion_runtime.Base.{
  ℕ, ◌≡◌, refl, true, Option, none, some, List, [], ◌∷◌, map, any, String, string_eq, Result, ok,
  err,
}
use dion_runtime.Client.{Client, Codec, json_fault}
use dion_runtime.Timestamp.{ℤ, pos, negsuc}
use dion_runtime.Base.Maps.{lookup, insert}
use dion_runtime.Settings.{Carried, dropdown, overwrite, Setting, SettingValue}
use dion_runtime.Settings.Store as Settings
use dion_runtime.Mihon.Dto.Types.{Embedded, MihonSourceType, MangasPageDto}
use dion_runtime.Mihon.Filters.{FilterDto, filter_value, filter_to_setting, sort_options}
use dion_runtime.Mihon.Sources.{
  Json, Bridge, MihonExtension, next_page, merge_filters, customized_search_filters, reload,
}
use dion_runtime.Mihon.Merges.{Chosen}
use dion_runtime.Mihon.Choices.{Sends, reload-Chosen}
use dion_runtime.Tests.MemoryClient.{memory_client}
use dion_runtime.Tests.NilCodec.{nil_codec}

abbrev carried : Carried
carried = record { F32 = ℕ; F64 = ℕ; I32 = ℕ; CustomUi = Unit }

abbrev embedded : Embedded
embedded = record {
  F32 = ℕ;
  DateTime = ℕ;
  CustomUi = Unit;
  Row = Unit;
  MixedContent = Unit;
  TextStyle = Unit;
  ImageListAudio = Unit;
  Chapter = Unit;
}

abbrev string_of : SettingValue carried → String
string_of (SettingValue.string s) = s
string_of _ = ""

-- A codec that writes the states of the filters only.
abbrev state_of : List FilterDto → String
state_of [] = "[]"
state_of (f ∷ fs) = f.state

abbrev json : Json carried
json = record {
  value_string = λ v. some (string_of v);
  filters_string = λ fs. some (state_of fs);
  preferences_string = λ ps. some "[]";
  query_and_filters = λ t. none;
  f32_string = λ n. "0";
}

abbrev select : String → FilterDto
select state = record {
  filter_type = "Select";
  name = "Genre";
  state = state;
  values = some ("Any" ∷ "Action" ∷ []);
}

abbrev sort : FilterDto
sort = record { filter_type = "Sort"; name = "Order"; state = ""; values = some ("Title" ∷ []) }

abbrev page : MangasPageDto
page = record { mangas = []; has_next_page = true }

abbrev bridge : Bridge carried
bridge = record {
  Jvm = Unit {0};
  get_filter_list = λ j. (ok (select "" ∷ sort ∷ []), j);
  get_preference_list = λ j. (err json_fault, j);
  apply_preferences = λ t j. (ok tt, j);
  get_popular = λ n j. (ok page, j);
  get_popular_anime = λ n j. (ok page, j);
  search = λ n q f j. (ok page, j);
  search_anime = λ n q f j. (ok page, j);
}

abbrev client : Client (Unit {0})
client = memory_client Unit

abbrev genre : Setting carried
genre = record {
  label = "Genre";
  value = SettingValue.string "1";
  default = SettingValue.string "0";
  visible = true;
  ui = none;
}

abbrev codec : Codec (Settings.SettingMap carried)
codec = nil_codec (String × Setting carried)

abbrev no_date : ℤ → Option embedded.DateTime
no_date n = none

abbrev source : MihonExtension json bridge client codec embedded no_date (pos 0)
source = record {
  source_type = MihonSourceType.manga;
  store = record { extension_setting = []; search_setting = ("Genre", genre) ∷ [] };
  jvm = tt;
  host = [];
}

chosen : Chosen "Genre" "1" source.store
unfolding lookup
chosen = (genre, refl, refl)

reload-Chosen_example :
    Chosen "Genre" "1" (reload json bridge client codec embedded no_date (pos 0) source).1.store
    × Sends json bridge client codec embedded no_date
        (pos 0)
        "Genre"
        "1"
        "dragons"
        (pos 0)
        (reload json bridge client codec embedded no_date (pos 0) source).1
reload-Chosen_example =
    reload-Chosen json bridge client codec embedded no_date (pos 0) "Genre" "1" "dragons" (pos 0)
      source refl refl refl chosen

-- The last page of an i32 wraps.
last_page : next_page (pos 2147483647) ≡ negsuc 2147483647
last_page = refl

sort_setting :
    filter_to_setting {x = carried} sort
    ≡ some (
      "Order",
      record {
        label = "Order";
        value = SettingValue.string "0;true";
        default = SettingValue.string "0;true";
        visible = true;
        ui = some (
            dropdown (
              record { label = "Title (asc)"; value = "0;true" }
              ∷ record { label = "Title (desc)"; value = "0;false" }
              ∷ []));
      },
    )
unfolding filter_to_setting filter_value sort_options dion_runtime.Base.Decimal.digits_of
sort_setting = refl

-- A filter whose initial state changed with an update of the extension counts as customized, though
-- the user chose nothing.
changed_default :
    customized_search_filters json (
      merge_filters
        (select "0" ∷ select "1" ∷ [])
        (record { extension_setting = []; search_setting = [] }))
    ≡ some "0"
unfolding customized_search_filters merge_filters Settings.merge_setting_definition
    filter_to_setting insert lookup overwrite
changed_default = refl
