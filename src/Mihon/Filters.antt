-- ===== src/Mihon/Filters.antt =====
-- The conversions between the bridge's filters and preferences and the settings of an extension, in
-- rust/mihon/src/extension.rs, with `FilterDto` and `PreferenceDto` of rust/mihon/src/mapping/dto.rs.
-- How an f32 is printed, and the JSON codec, are parameters.
use Prim.Native.String.{◌++◌}
use dion_runtime.Base.{
  ℕ, ◌+◌, Bool, true, false, ◌&&◌, ◌||◌, Option, none, some, List, [], ◌∷◌, map, String, Text,
  codes, ◌==◌, string_eq, nat_eq, list_eq, leb, if◌then◌else◌,
}
use dion_runtime.Base.Decimal.{decimal}
use dion_runtime.Base.Texts.{unwrap_or, map_option}
use dion_runtime.Settings.{
  Carried, Setting, SettingValue, SettingsUi, DropdownOption, check_box, dropdown, multi_dropdown,
}

pub record FilterDto : Type 0 where
  pub filter_type : String
  pub name : String
  pub state : String
  pub values : Option (List String)

pub data PrefValue (x : Carried) : Type 0 where
  string : String → PrefValue x
  number : x.F32 → PrefValue x
  boolean : Bool → PrefValue x
  string_list : List String → PrefValue x

pub record PrefOption : Type 0 where
  pub label : String
  pub value : String

pub record PreferenceDto (x : Carried) : Type 0 where
  pub key : String
  pub title : String
  pub kind : String
  pub value : PrefValue x
  pub default : PrefValue x
  pub options : Option (List PrefOption)
  pub visible : Bool

-- `n.to_string()` of an index.
abbrev digit_string : ℕ → String
digit_string c =
    if c == b'0'
    then "0"
    else if c == b'1'
    then "1"
    else if c == b'2'
    then "2"
    else if c == b'3'
    then "3"
    else if c == b'4'
    then "4"
    else if c == b'5'
    then "5"
    else if c == b'6'
    then "6"
    else if c == b'7'
    then "7"
    else if c == b'8'
    then "8"
    else "9"

abbrev digits_string : Text → String
digits_string [] = ""
digits_string (c ∷ cs) = digit_string c ++ digits_string cs

abbrev pub index_string : ℕ → String
index_string n = digits_string (decimal n)

-- `u8::to_ascii_lowercase`
abbrev to_ascii_lowercase : ℕ → ℕ
to_ascii_lowercase c = if leb b'A' c && leb c b'Z' then c + 32 else c

-- `text.eq_ignore_ascii_case(other)`
abbrev pub eq_ignore_ascii_case : String → String → Bool
eq_ignore_ascii_case s t = map to_ascii_lowercase (codes s) == map to_ascii_lowercase (codes t)

abbrev pub or_if_empty : String → String → String
or_if_empty state default = if state == "" then default else state

-- `state`, or the index of the first option.
abbrev pub state_or_zero : String → String
state_or_zero state = or_if_empty state "0"

abbrev tri_state_options : List DropdownOption
tri_state_options =
    record { label = "Ignore"; value = "0" }
    ∷ record { label = "Include"; value = "1" }
    ∷ record { label = "Exclude"; value = "2" }
    ∷ []

unfoldable pub select_options : ℕ → List String → List DropdownOption
select_options i [] = []
select_options i (v ∷ vs) = record { label = v; value = index_string i } ∷ select_options (i + 1) vs

unfoldable pub sort_options : ℕ → List String → List DropdownOption
sort_options i [] = []
sort_options i (field ∷ fields) =
    record { label = field ++ " (asc)"; value = index_string i ++ ";true" }
    ∷ record { label = field ++ " (desc)"; value = index_string i ++ ";false" }
    ∷ sort_options (i + 1) fields

abbrev pub first_value : List DropdownOption → String
first_value [] = ""
first_value (o ∷ os) = o.value

abbrev option_of : PrefOption → DropdownOption
option_of o = record { label = o.label; value = o.value }

abbrev label_of : DropdownOption → String
label_of o = o.label

abbrev first_string : List String → String
first_string [] = ""
first_string (s ∷ ss) = s

abbrev bool_string : Bool → String
bool_string true = "true"
bool_string false = "false"

module _ {x : Carried} where
  -- The value and the user interface of a filter, none where it has no state to edit.
  unfoldable pub filter_value : FilterDto → Option (SettingValue x × Option (SettingsUi x))
  unfolding select_options sort_options
  filter_value filter =
      let type = filter.filter_type in
      let state = filter.state in
      let values = unwrap_or filter.values [] in
      if type == "Header" || type == "Separator"
      then none
      else if type == "Text"
      then some (SettingValue.string state, none)
      else if type == "CheckBox"
      then some (SettingValue.boolean (eq_ignore_ascii_case state "true"), some check_box)
      else if type == "TriState"
      then some (SettingValue.string (state_or_zero state), some (dropdown tri_state_options))
      else if type == "Select"
      then some
          (SettingValue.string (state_or_zero state), some (dropdown (select_options 0 values)))
      else if type == "Sort"
      then (let options = sort_options 0 values in
          some (
            SettingValue.string (or_if_empty state (first_value options)),
            some (dropdown options),
          ))
      else some (SettingValue.string state, none)

  abbrev pub defined_filter : String → SettingValue x × Option (SettingsUi x) → String × Setting x
  defined_filter name (value, ui) =
      (name, record { label = name; value = value; default = value; visible = true; ui = ui })

  unfoldable pub filter_to_setting : FilterDto → Option (String × Setting x)
  unfolding filter_value
  filter_to_setting filter = map_option (defined_filter filter.name) (filter_value filter)

  abbrev pub pref_value_to_setting : PrefValue x → Option (SettingValue x)
  pref_value_to_setting (PrefValue.string s) = some (SettingValue.string s)
  pref_value_to_setting (PrefValue.number n) = some (SettingValue.number n)
  pref_value_to_setting (PrefValue.boolean b) = some (SettingValue.boolean b)
  pref_value_to_setting (PrefValue.string_list l) = some (SettingValue.string_list l)

  abbrev pub setting_value_to_pref : SettingValue x → Option (PrefValue x)
  setting_value_to_pref (SettingValue.string s) = some (PrefValue.string s)
  setting_value_to_pref (SettingValue.number n) = some (PrefValue.number n)
  setting_value_to_pref (SettingValue.boolean b) = some (PrefValue.boolean b)
  setting_value_to_pref (SettingValue.string_list l) = some (PrefValue.string_list l)

  abbrev pub preference_ui : PreferenceDto x → Option (SettingsUi x)
  preference_ui pref =
      if pref.kind == "switch"
      then some check_box
      else if pref.kind == "list"
      then map_option (λ options. dropdown (map option_of options)) pref.options
      else if pref.kind == "multiselect"
      then map_option (λ options. multi_dropdown (map option_of options)) pref.options
      else none

  abbrev pub defined_preference : PreferenceDto x → SettingValue x → String × Setting x
  defined_preference pref value = (
    pref.key,
    record {
      label = or_if_empty pref.title pref.key;
      value = value;
      default = unwrap_or (pref_value_to_setting pref.default) value;
      visible = pref.visible;
      ui = preference_ui pref;
    },
  )

  unfoldable pub preference_to_setting : PreferenceDto x → Option (String × Setting x)
  preference_to_setting pref =
      map_option (defined_preference pref) (pref_value_to_setting pref.value)

  abbrev pub filter_ui_to_type : Option (SettingsUi x) → String
  filter_ui_to_type (some check_box) = "CheckBox"
  filter_ui_to_type (some (dropdown options)) = "Select"
  filter_ui_to_type ui = "Text"

  abbrev pub filter_ui_to_values : Option (SettingsUi x) → Option (List String)
  filter_ui_to_values (some (dropdown options)) = some (map label_of options)
  filter_ui_to_values ui = none

  abbrev pub setting_value_to_filter_state : (x.F32 → String) → SettingValue x → String
  setting_value_to_filter_state f32_string (SettingValue.string s) = s
  setting_value_to_filter_state f32_string (SettingValue.number n) = f32_string n
  setting_value_to_filter_state f32_string (SettingValue.boolean b) = bool_string b
  setting_value_to_filter_state f32_string (SettingValue.string_list l) = first_string l

  abbrev pub setting_to_filter : (x.F32 → String) → String × Setting x → FilterDto
  setting_to_filter f32_string (id, setting) = record {
    filter_type = filter_ui_to_type setting.ui;
    name = id;
    state = setting_value_to_filter_state f32_string setting.value;
    values = filter_ui_to_values setting.ui;
  }
