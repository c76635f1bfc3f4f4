-- ===== src/Settings.antt =====
-- rust/core/src/data/settings.rs: the settings of an extension.
pub mod Store
pub mod StoreLaws
pub mod Reload
use dion_runtime.Base.{Bool, List, Option, String, Result, ok, err}

-- The numbers (f32, f64 and i32) and the custom user interface, which the settings only carry.
pub record Carried : Type 1 where
  pub F32 : Type 0
  pub F64 : Type 0
  pub I32 : Type 0
  pub CustomUi : Type 0

pub data SettingKind : Type 0 where
  extension search : SettingKind

pub data SettingValue (x : Carried) : Type 0 where
  string : String → SettingValue x
  number : x.F32 → SettingValue x
  boolean : Bool → SettingValue x
  string_list : List String → SettingValue x

pub record DropdownOption : Type 0 where
  pub label : String
  pub value : String

pub data SettingsUi (x : Carried) : Type 0 where
  check_box : SettingsUi x
  slider : x.F64 → x.F64 → x.I32 → SettingsUi x
  dropdown multi_dropdown : List DropdownOption → SettingsUi x
  directory : Bool → SettingsUi x
  custom_ui : x.CustomUi → SettingsUi x

pub record Setting (x : Carried) : Type 0 where
  pub label : String
  pub value : SettingValue x
  pub default : SettingValue x
  pub visible : Bool
  pub ui : Option (SettingsUi x)

-- Why an operation on the settings failed.
pub data SettingError : Type 0 where
  wrong_type : String → String → SettingError
  not_found : SettingKind → String → SettingError
  bad_id : String → SettingError

module _ {x : Carried} where
  unfoldable pub get_type_name : SettingValue x → String
  get_type_name (string _) = "String"
  get_type_name (number _) = "Number"
  get_type_name (boolean _) = "Boolean"
  get_type_name (string_list _) = "StringList"

  -- The value after the call; a value of another type is left alone.
  unfoldable pub overwrite :
      SettingValue x → SettingValue x → Result SettingError (Unit {0}) × SettingValue x
  unfolding get_type_name
  overwrite (string _) (string v) = (ok tt, string v)
  overwrite (number _) (number v) = (ok tt, number v)
  overwrite (boolean _) (boolean v) = (ok tt, boolean v)
  overwrite (string_list _) (string_list v) = (ok tt, string_list v)
  overwrite val other = (err (wrong_type (get_type_name val) (get_type_name other)), val)
