-- ===== src/Settings/Store.antt =====
-- rust/core/src/store/settings.rs: the settings of an extension, in two maps by their kind.
use dion_runtime.Base.{
  Option, none, some, List, [], String, ◌==◌, string_eq, nat_eq, any, Result, ok, err, is_blank,
  codes, if◌then◌else◌,
}
use dion_runtime.Base.Maps.{lookup, insert, remove, keys}
use dion_runtime.Client.{Client, Codec, Fault}
use dion_runtime.Settings.{
  Carried, SettingKind, extension, search, Setting, SettingValue, SettingError, not_found, bad_id,
  overwrite,
}

module _ (x : Carried) where
  abbrev pub SettingMap : Type 0
  SettingMap = List (String × Setting x)

  pub record SettingStore : Type 0 where
    pub extension_setting : SettingMap
    pub search_setting : SettingMap

module _ {x : Carried} where
  abbrev pub get_settings : SettingStore x → SettingKind → SettingMap x
  get_settings s extension = s.extension_setting
  get_settings s search = s.search_setting

  -- What is written through `get_settings_mut`.
  abbrev pub set_settings : SettingKind → SettingMap x → SettingStore x → SettingStore x
  set_settings extension map s = record s { extension_setting = map }
  set_settings search map s = record s { search_setting = map }

  unfoldable pub remove_setting :
      SettingStore x → String → SettingKind → Result SettingError (Unit {0}) × SettingStore x
  remove_setting s id kind = elim (lookup id (get_settings s kind)) [
    | none ↦ (err (not_found kind id), s)
    | some _ ↦ (ok tt, set_settings kind (remove id (get_settings s kind)) s)
  ]

  unfoldable pub set_setting :
      SettingStore x
      → String
      → SettingKind
      → SettingValue x
      → Result SettingError (Unit {0}) × SettingStore x
  set_setting s id kind value = elim (lookup id (get_settings s kind)) [
    | none ↦ (err (not_found kind id), s)
    | some setting ↦ (
      ok tt,
      set_settings kind (insert id (record setting { value = value }) (get_settings s kind)) s,
    )
  ]

  abbrev pub found_setting :
      SettingKind → String → Option (Setting x) → Result SettingError (Setting x)
  found_setting kind id none = err (not_found kind id)
  found_setting kind id (some setting) = ok setting

  unfoldable pub get_setting :
      SettingStore x → String → SettingKind → Result SettingError (Setting x)
  get_setting s id kind = found_setting kind id (lookup id (get_settings s kind))

  abbrev pub get_setting_ids : SettingStore x → SettingKind → List String
  get_setting_ids s kind = keys (get_settings s kind)

  -- The definition with the current value carried over, if there is one of its type.
  abbrev pub carried_over : Setting x → Option (Setting x) → Setting x
  carried_over definition none = definition
  carried_over definition (some current) = record definition {
    value = (overwrite definition.value current.value).1;
  }

  unfoldable pub merge_setting_definition :
      SettingStore x
      → String
      → SettingKind
      → Setting x
      → Result SettingError (Unit {0}) × SettingStore x
  merge_setting_definition s id kind definition =
      if any (λ c. c == b'/') (codes id)
      then (err (bad_id id), s)
      else (let map = get_settings s kind in
          (ok tt, set_settings kind (insert id (carried_over definition (lookup id map)) map) s))

module _ {P : Type 0} (client : Client P) {x : Carried} (codec : Codec (SettingMap x)) where
  open client use {Host, load_data, store_data}
  open codec use {to_string, from_str}

  -- One of the maps read: the map it had, where nothing is stored.
  unfoldable pub load_map : String → SettingMap x → Host → Result Fault (SettingMap x)
  load_map key old host = elim (load_data key host) [
    | err e ↦ err e
    | ok text ↦ if is_blank text then ok old else from_str text
  ]

  -- The store after the call: the first map stays read where the second fails.
  unfoldable pub load_state : SettingStore x → Host → Result Fault (Unit {0}) × SettingStore x
  unfolding load_map
  load_state s host = elim (load_map "extension_settings" s.extension_setting host) [
    | err e ↦ (err e, s)
    | ok ext ↦ elim (load_map "search_settings" s.search_setting host) [
      | err e ↦ (err e, record s { extension_setting = ext })
      | ok found ↦ (ok tt, record { extension_setting = ext; search_setting = found })
    ]
  ]

  unfoldable pub new : Host → SettingStore x
  unfolding load_state
  new host = (load_state (record { extension_setting = []; search_setting = [] }) host).1

  unfoldable pub save_map : String → SettingMap x → Host → Result Fault (Unit {0}) × Host
  save_map key map host = elim (to_string map) [
    | err e ↦ (err e, host)
    | ok text ↦ store_data key text host
  ]

  abbrev pub save_second :
      SettingStore x → Result Fault (Unit {0}) × Host → Result Fault (Unit {0}) × Host
  save_second s (err e, host) = (err e, host)
  save_second s (ok _, host) = save_map "search_settings" s.search_setting host

  unfoldable pub save_state : SettingStore x → Host → Result Fault (Unit {0}) × Host
  save_state s host = save_second s (save_map "extension_settings" s.extension_setting host)
