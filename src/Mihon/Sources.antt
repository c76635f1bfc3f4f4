-- ===== src/Mihon/Sources.antt =====
-- `MihonExtension` of rust/mihon/src/extension.rs: its settings, its listings and its searches. The
-- bridge to the Java side and the JSON codec are parameters. A page is an i32, whose sum wraps.
use dion_runtime.Base.{
  zero, suc, ◌^◌, ◌-◌, ◌+◌, Bool, true, not, Option, none, some, List, [], ◌∷◌, map, any, String,
  ◌==◌, string_eq, nat_eq, Result, ok, err, is_prefix, codes, if◌then◌else◌,
}
use dion_runtime.Base.Action.{Action}
use dion_runtime.Base.Maps.{insert}
use dion_runtime.Base.Texts.{unwrap_or}
use dion_runtime.Client.{Client, Codec, Fault}
use dion_runtime.Timestamp.{ℤ, pos, negsuc}
use dion_runtime.Settings.{Carried, SettingKind, Setting, SettingValue}
use dion_runtime.Settings.Store.{
  SettingMap, SettingStore, get_settings, merge_setting_definition, save_state,
}
use dion_runtime.Mihon.Dto.Types.{Embedded, EntryList, MihonSourceType, MangasPageDto}
use dion_runtime.Mihon.Dto.Entries.{into_entry_list}
use dion_runtime.Mihon.Filters.{
  FilterDto, PreferenceDto, filter_to_setting, preference_to_setting, setting_value_to_pref,
  setting_to_filter,
}

unfoldable pub parse_source_type : String → MihonSourceType
parse_source_type s =
    if s == "anime"
    then MihonSourceType.anime
    else if s == "novel"
    then MihonSourceType.novel
    else MihonSourceType.manga

-- serde_json on the values that are sent to the bridge, none where it fails, and the f32 of std.
pub record Json (x : Carried) : Type 0 where
  pub value_string : SettingValue x → Option String
  pub filters_string : List FilterDto → Option String
  pub preferences_string : List (PreferenceDto x) → Option String
  -- The text under `query` and the JSON under `filters` of a JSON value.
  pub query_and_filters : String → Option (Option String × Option String)
  pub f32_string : x.F32 → String

-- The calls of one source on the Java side.
pub record Bridge (x : Carried) : Type 1 where
  pub Jvm : Type 0
  pub get_filter_list : Action Jvm Fault (List FilterDto)
  pub get_preference_list : Action Jvm Fault (List (PreferenceDto x))
  pub apply_preferences : String → Action Jvm Fault (Unit {0})
  pub get_popular : ℤ → Action Jvm Fault MangasPageDto
  pub get_popular_anime : ℤ → Action Jvm Fault MangasPageDto
  pub search : ℤ → String → String → Action Jvm Fault MangasPageDto
  pub search_anime : ℤ → String → String → Action Jvm Fault MangasPageDto

-- `unwrap_or_default()`
abbrev pub or_empty {ℓ} : {A : Type ℓ} → {E : Type 0} → Result E (List A) → List A
or_empty (ok xs) = xs
or_empty (err e) = []

-- `page + 1`
abbrev pub next_page : ℤ → ℤ
next_page (pos n) = if n == 2 ^ 31 - 1 then negsuc (2 ^ 31 - 1) else pos (n + 1)
next_page (negsuc zero) = pos 0
next_page (negsuc (suc n)) = negsuc n

module _ {x : Carried} (json : Json x) where
  open json use {value_string, filters_string, preferences_string, query_and_filters, f32_string}

  unfoldable pub parse_filter_string : String → String × String
  parse_filter_string filter =
      if is_prefix (b'{' ∷ []) (codes filter)
      then elim (query_and_filters filter) [
        | some (query, filters) ↦ (unwrap_or query "", unwrap_or filters "")
        | none ↦ (filter, "")
      ]
      else if is_prefix (b'[' ∷ []) (codes filter)
      then ("", filter)
      else (filter, "")

  unfoldable pub settings_to_filter_json : SettingMap x → String
  settings_to_filter_json settings =
      unwrap_or (filters_string (map (setting_to_filter f32_string) settings)) ""

  abbrev pub same_text : Option String → Option String → Bool
  same_text (some a) (some b) = a == b
  same_text _ _ = true

  abbrev pub setting_value_matches_default : SettingValue x → SettingValue x → Bool
  setting_value_matches_default value default =
      same_text (value_string value) (value_string default)

  abbrev pub is_customized : String × Setting x → Bool
  is_customized (id, setting) = not (setting_value_matches_default setting.value setting.default)

  unfoldable pub customized_search_filters : SettingStore x → Option String
  unfolding settings_to_filter_json
  customized_search_filters store =
      let settings = get_settings store SettingKind.search in
      let filters = settings_to_filter_json settings in
      if any is_customized settings then (if filters == "" then none else some filters) else none

module _ {x : Carried} where
  abbrev preference_of : String × Setting x → Option (PreferenceDto x)
  preference_of (key, setting) = elim (setting_value_to_pref setting.value) [
    | none ↦ none
    | some value ↦ some (record {
      key = key;
      title = "";
      kind = "";
      value = value;
      default = value;
      options = none;
      visible = true;
    })
  ]

  abbrev consed : Option (PreferenceDto x) → List (PreferenceDto x) → List (PreferenceDto x)
  consed none ps = ps
  consed (some p) ps = p ∷ ps

  unfoldable pub preferences_of : SettingMap x → List (PreferenceDto x)
  preferences_of [] = []
  preferences_of (s ∷ ss) = consed (preference_of s) (preferences_of ss)

  unfoldable pub overlay : SettingMap x → SettingMap x → SettingMap x
  unfolding insert
  overlay stored [] = stored
  overlay stored ((k, v) ∷ overrides) = overlay (insert k v stored) overrides

  abbrev pub merge_defined :
      SettingKind → Option (String × Setting x) → SettingStore x → SettingStore x
  merge_defined kind none s = s
  merge_defined kind (some (id, setting)) s = (merge_setting_definition s id kind setting).1

  unfoldable pub merge_filters : List FilterDto → SettingStore x → SettingStore x
  merge_filters [] s = s
  merge_filters (f ∷ fs) s =
      merge_filters fs (merge_defined SettingKind.search (filter_to_setting f) s)

  unfoldable pub merge_preferences : List (PreferenceDto x) → SettingStore x → SettingStore x
  merge_preferences [] s = s
  merge_preferences (p ∷ ps) s =
      merge_preferences ps (merge_defined SettingKind.extension (preference_to_setting p) s)

module _ {x : Carried} {P : Type 0} (json : Json x) (bridge : Bridge x) (client : Client P)
    (codec : Codec (SettingMap x)) (y : Embedded) (timestamp_millis_opt : ℤ → Option y.DateTime)
    (now : ℤ) where
  open client use {Host}
  open bridge use {Jvm}

  pub record MihonExtension : Type 0 where
    pub source_type : MihonSourceType
    pub store : SettingStore x
    pub jvm : Jvm
    pub host : Host

  unfoldable pub reload : MihonExtension → Result Fault (Unit {0}) × MihonExtension
  unfolding merge_filters merge_preferences
  reload e =
      let filters = bridge.get_filter_list e.jvm in
      let preferences = bridge.get_preference_list filters.1 in
      let store =
        merge_preferences (or_empty preferences.0) (merge_filters (or_empty filters.0) e.store) in
      let saved = save_state client codec store e.host in
      (saved.0, record e { store = store; jvm = preferences.1; host = saved.1 })

  abbrev pushed : Option String → MihonExtension → MihonExtension
  pushed none e = e
  pushed (some text) e = record e { jvm = (bridge.apply_preferences text e.jvm).1 }

  unfoldable pub apply_preferences : SettingMap x → MihonExtension → MihonExtension
  unfolding overlay preferences_of
  apply_preferences overrides e =
      elim (preferences_of (overlay (get_settings e.store SettingKind.extension) overrides)) [
        | [] ↦ e
        | p ∷ ps ↦ pushed (json.preferences_string (p ∷ ps)) e
      ]

  abbrev pub answered :
      MihonExtension
      → Result Fault MangasPageDto × Jvm
      → Result Fault (EntryList y) × MihonExtension
  answered e (ok page, jvm) =
      (ok (into_entry_list y timestamp_millis_opt now e.source_type page), record e { jvm = jvm })
  answered e (err fault, jvm) = (err fault, record e { jvm = jvm })

  abbrev pub search_by : MihonSourceType → ℤ → String → String → Action Jvm Fault MangasPageDto
  search_by MihonSourceType.anime = bridge.search_anime
  search_by _ = bridge.search

  abbrev pub popular_by : MihonSourceType → ℤ → Action Jvm Fault MangasPageDto
  popular_by MihonSourceType.anime = bridge.get_popular_anime
  popular_by _ = bridge.get_popular

  unfoldable pub browse : ℤ → MihonExtension → Result Fault (EntryList y) × MihonExtension
  unfolding into_entry_list customized_search_filters
  browse page e = elim (customized_search_filters json e.store) [
    | some filters ↦ answered e (search_by e.source_type (next_page page) "" filters e.jvm)
    | none ↦ answered e (popular_by e.source_type (next_page page) e.jvm)
  ]

  unfoldable pub search : ℤ → String → MihonExtension → Result Fault (EntryList y) × MihonExtension
  unfolding into_entry_list parse_filter_string settings_to_filter_json
  search page filter e =
      let parsed = parse_filter_string json filter in
      let filters =
        if parsed.1 == ""
        then settings_to_filter_json json (get_settings e.store SettingKind.search)
        else parsed.1 in
      answered e (search_by e.source_type (next_page page) parsed.0 filters e.jvm)
