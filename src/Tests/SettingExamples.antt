-- ===== src/Tests/SettingExamples.antt =====
-- The theorems on settings at concrete inputs.
use dion_runtime.Base.{
  ℕ, ◌≡◌, refl, true, false, none, ◌==◌, codes, subst, is_blank, Text, Result, err, if◌then◌else◌,
  list_eq, nat_eq, [], ◌∷◌, string_eq, ok,
}
use dion_runtime.Base.Maps.{lookup}
use dion_runtime.Client.{Client, Codec, Fault, json_fault}
use dion_runtime.Settings.{Carried, SettingKind, Setting, SettingValue}
use dion_runtime.Settings.Store as Settings
use dion_runtime.Settings.StoreLaws.{merge_setting_definition-Assigns, Assigns, IsCarriedOver}
use dion_runtime.Settings.Reload.{ReadsBackMap, reload_settings}
use dion_runtime.Tests.MemoryClient.{memory_client, memory-IsPersistent}

abbrev client : Client (Unit {0})
client = memory_client Unit

abbrev carried : Carried
carried = record { F32 = ℕ; F64 = ℕ; I32 = ℕ; CustomUi = Unit }

abbrev setting : ℕ → Setting carried
setting n = record {
  label = "Pages";
  value = SettingValue.number n;
  default = SettingValue.number 10;
  visible = true;
  ui = none;
}

abbrev settings : Settings.SettingStore carried
settings = record { extension_setting = ("pages", setting 25) ∷ []; search_setting = [] }

definition_merged :
    (Settings.merge_setting_definition settings "pages" SettingKind.extension (setting 10)).0
    ≡ ok tt
unfolding Settings.merge_setting_definition
definition_merged = refl

merge_setting_definition-Assigns_example :
    (merged : Setting carried) × Assigns "pages" SettingKind.extension merged settings
      (Settings.merge_setting_definition settings "pages" SettingKind.extension (setting 10)).1
    × IsCarriedOver
        (setting 10)
        (lookup "pages" (Settings.get_settings settings SettingKind.extension))
        merged
merge_setting_definition-Assigns_example =
    merge_setting_definition-Assigns settings "pages" SettingKind.extension (setting 10)
      definition_merged

setting_removed : (Settings.remove_setting settings "pages" SettingKind.extension).0 ≡ ok tt
unfolding Settings.remove_setting lookup
setting_removed = refl

-- A codec of the settings above and of no settings.
abbrev put : Settings.SettingMap carried → Result Fault Text
put [] = ok (codes "{}")
put ((id, s) ∷ []) = if id == "pages" then ok (codes "{pages}") else err json_fault
put _ = err json_fault

abbrev parse : Text → Result Fault (Settings.SettingMap carried)
parse t =
    if t == codes "{}"
    then ok []
    else if t == codes "{pages}"
    then ok settings.extension_setting
    else err json_fault

abbrev codec : Codec (Settings.SettingMap carried)
codec = record { to_string = put; from_str = parse }

extension-ReadsBackMap : ReadsBackMap codec settings.extension_setting
extension-ReadsBackMap = record {
  read_back = λ t e.
      let w : codes "{pages}" ≡ t = cc e in
      (
        settings.extension_setting,
        subst (λ u. parse u ≡ ok settings.extension_setting) w refl,
        λ id. refl,
      );
  not_blank = λ t e. let w : codes "{pages}" ≡ t = cc e in subst (λ u. is_blank u ≡ false) w refl;
}

search-ReadsBackMap : ReadsBackMap codec settings.search_setting
search-ReadsBackMap = record {
  read_back = λ t e.
      let w : codes "{}" ≡ t = cc e in
      ([], subst (λ u. parse u ≡ ok settings.search_setting) w refl, λ id. refl);
  not_blank = λ t e. let w : codes "{}" ≡ t = cc e in subst (λ u. is_blank u ≡ false) w refl;
}

settings_saved : (Settings.save_state client codec settings []).0 ≡ ok tt
unfolding Settings.save_state Settings.save_map
settings_saved = refl

reload_settings_example :
    Settings.get_setting
      (Settings.new client codec (Settings.save_state client codec settings []).1)
      "pages"
      SettingKind.extension
    ≡ Settings.get_setting settings "pages" SettingKind.extension
reload_settings_example =
    reload_settings client codec settings [] SettingKind.extension "pages"
      (memory-IsPersistent Unit) extension-ReadsBackMap search-ReadsBackMap settings_saved
