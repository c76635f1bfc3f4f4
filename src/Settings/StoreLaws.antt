-- ===== src/Settings/StoreLaws.antt =====
-- What the operations on the settings of rust/core/src/store/settings.rs do.
use dion_runtime.Base.{
  ◌≡◌, ◌≢◌, refl, ap, ◌∙◌, Option, none, some, arith, String, ◌==◌, string_eq, nat_eq, any, Result,
  ok, err, codes, if◌then◌else◌, Option-cases, Bool-cases, inl, inr,
}
use dion_runtime.Base.Maps.{
  lookup, insert, remove, lookup-insert, lookup-insert_self, lookup-remove,
}
use dion_runtime.Settings.{
  Carried, SettingKind, extension, search, Setting, SettingValue, SettingError, not_found,
  overwrite, get_type_name,
}
use dion_runtime.Settings.Store.{
  SettingMap, SettingStore, get_settings, set_settings, remove_setting, set_setting, get_setting,
  found_setting, carried_over, merge_setting_definition,
}

-- The kind that is not this one.
abbrev pub other_kind : SettingKind → SettingKind
other_kind extension = search
other_kind search = extension

module _ {x : Carried} where
  -- A value overwritten by one of its own type becomes that value; by one of another type it fails
  -- and the value stays.
  pub overwrite_lem :
      (v w : SettingValue x)
      → overwrite v w ≡ (
          if get_type_name v == get_type_name w
          then (ok tt, w)
          else (err (SettingError.wrong_type (get_type_name v) (get_type_name w)), v))
  unfolding overwrite get_type_name
  overwrite_lem (SettingValue.string v) (SettingValue.string w) = refl
  overwrite_lem (SettingValue.string v) (SettingValue.number w) = refl
  overwrite_lem (SettingValue.string v) (SettingValue.boolean w) = refl
  overwrite_lem (SettingValue.string v) (SettingValue.string_list w) = refl
  overwrite_lem (SettingValue.number v) (SettingValue.string w) = refl
  overwrite_lem (SettingValue.number v) (SettingValue.number w) = refl
  overwrite_lem (SettingValue.number v) (SettingValue.boolean w) = refl
  overwrite_lem (SettingValue.number v) (SettingValue.string_list w) = refl
  overwrite_lem (SettingValue.boolean v) (SettingValue.string w) = refl
  overwrite_lem (SettingValue.boolean v) (SettingValue.number w) = refl
  overwrite_lem (SettingValue.boolean v) (SettingValue.boolean w) = refl
  overwrite_lem (SettingValue.boolean v) (SettingValue.string_list w) = refl
  overwrite_lem (SettingValue.string_list v) (SettingValue.string w) = refl
  overwrite_lem (SettingValue.string_list v) (SettingValue.number w) = refl
  overwrite_lem (SettingValue.string_list v) (SettingValue.boolean w) = refl
  overwrite_lem (SettingValue.string_list v) (SettingValue.string_list w) = refl

  get_setting-set_settings :
      (kind : SettingKind) (map : SettingMap x) (s : SettingStore x) (j : String)
      → get_setting (set_settings kind map s) j kind ≡ found_setting kind j (lookup j map)
  unfolding get_setting
  get_setting-set_settings extension map s j = refl
  get_setting-set_settings search map s j = refl

  other_settings :
      (kind : SettingKind) (map : SettingMap x) (s : SettingStore x)
      → get_settings (set_settings kind map s) (other_kind kind) ≡ get_settings s (other_kind kind)
  other_settings extension map s = refl
  other_settings search map s = refl

  -- The setting `id` is now `setting`, and nothing else has changed.
  pub record Assigns (id : String) (kind : SettingKind) (setting : Setting x)
      (s s' : SettingStore x) : Type 0 where
    pub assigned : get_setting s' id kind ≡ ok setting
    pub others : (j : String) → id ≢ j → get_setting s' j kind ≡ get_setting s j kind
    pub apart : get_settings s' (other_kind kind) ≡ get_settings s (other_kind kind)

  set_settings-Assigns :
      (id : String) (kind : SettingKind) (setting : Setting x) (s : SettingStore x)
      → Assigns id kind setting s (set_settings kind (insert id setting (get_settings s kind)) s)
  unfolding get_setting
  set_settings-Assigns id kind setting s =
      let map = get_settings s kind in
      let read = get_setting-set_settings kind (insert id setting map) s in
      record {
        assigned = read id ∙ ap (found_setting kind id) (lookup-insert_self id setting map);
        others = λ j n.
            read j
            ∙ ap (found_setting kind j)
                (lookup-insert id j setting map ∙ ground (arith, string_eq.beq_iff id j));
        apart = other_settings kind (insert id setting map) s;
      }

  -- The setting that a definition becomes, by the current one: the definition, with the current value
  -- where there is one of the type of the definition's.
  abbrev pub IsCarriedOver : Setting x → Option (Setting x) → Setting x → Type 0
  IsCarriedOver definition none setting = setting ≡ definition
  IsCarriedOver definition (some current) setting =
      (setting.label ≡ definition.label)
      × (setting.default ≡ definition.default)
      × (setting.visible ≡ definition.visible)
      × (setting.ui ≡ definition.ui)
      × (setting.value ≡ (
          if get_type_name definition.value == get_type_name current.value
          then current.value
          else definition.value))

  overwrite_value :
      (v w : SettingValue x)
      → (overwrite v w).1 ≡ (if get_type_name v == get_type_name w then w else v)
  overwrite_value v w =
      rw (overwrite_lem v w) (elim (Bool-cases (get_type_name v == get_type_name w)) [
        | inl same ↦ rw same refl
        | inr other ↦ rw other refl
      ])

  carried_over-IsCarriedOver :
      (definition : Setting x) (o : Option (Setting x))
      → IsCarriedOver definition o (carried_over definition o)
  carried_over-IsCarriedOver definition none = refl
  carried_over-IsCarriedOver definition (some current) =
      (refl, refl, refl, refl, overwrite_value definition.value current.value)

  -- A merge that succeeded stores the definition, with the current value where there is one of the
  -- type of the definition's value, and changes neither the other settings nor those of the other
  -- kind.
  pub merge_setting_definition-Assigns :
      (s : SettingStore x) (id : String) (kind : SettingKind) (definition : Setting x)
      → (merge_setting_definition s id kind definition).0 ≡ ok tt
      → (setting : Setting x) × Assigns id kind setting s
          (merge_setting_definition s id kind definition).1
        × IsCarriedOver definition (lookup id (get_settings s kind)) setting
  unfolding merge_setting_definition
  merge_setting_definition-Assigns s id kind definition done =
      elim (Bool-cases (any (λ c. c == b'/') (codes id))) [
        | inl bad ↦ let refused = rw bad at done in absurd (cc refused)
        | inr good ↦
            let current = lookup id (get_settings s kind) in
            rw good (
              carried_over definition current,
              set_settings-Assigns id kind (carried_over definition current) s,
              carried_over-IsCarriedOver definition current,
            )
      ]

  -- What `set_setting` does, by whether the setting is defined: the setting has the new value and
  -- all else is as it was, or the call fails and the store is as it was.
  abbrev pub SetsValue :
      String
      → SettingKind
      → SettingValue x
      → SettingStore x
      → Option (Setting x)
      → Result SettingError (Unit {0}) × SettingStore x
      → Type 0
  SetsValue id kind value s none r = r ≡ (err (not_found kind id), s)
  SetsValue id kind value s (some setting) r =
      (r.0 ≡ ok tt) × Assigns id kind (record setting { value = value }) s r.1

  -- `set_setting` gives a setting that is defined the new value and changes nothing else; for a
  -- setting that is not defined it fails and changes nothing.
  pub set_setting-SetsValue :
      (s : SettingStore x) (id : String) (kind : SettingKind) (value : SettingValue x)
      → SetsValue id kind value s (lookup id (get_settings s kind)) (set_setting s id kind value)
  unfolding set_setting
  set_setting-SetsValue s id kind value = elim (Option-cases (lookup id (get_settings s kind))) [
    | inl e ↦ rw (e, set_setting) refl
    | inr (setting, e) ↦
        rw (e, set_setting)
          (refl, set_settings-Assigns id kind (record setting { value = value }) s)
  ]

  -- After a `remove_setting` that succeeded, `get_setting` does not find the setting, and finds the
  -- others of its kind as before.
  pub get_setting-remove_setting :
      (s : SettingStore x) (id j : String) (kind : SettingKind)
      → (remove_setting s id kind).0 ≡ ok tt
      → get_setting (remove_setting s id kind).1 j kind
        ≡ (if id == j then err (not_found kind j) else get_setting s j kind)
  unfolding remove_setting get_setting
  get_setting-remove_setting s id j kind done =
      elim (Option-cases (lookup id (get_settings s kind))) [
        | inl e ↦ let refused = rw (e, remove_setting) at done in absurd (cc refused)
        | inr (setting, e) ↦
            let map = get_settings s kind in
            rw (e, remove_setting)
              (get_setting-set_settings kind (remove id map) s j
                ∙ ap (found_setting kind j) (lookup-remove id j map)
                ∙ ground arith)
      ]
