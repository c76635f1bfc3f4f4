-- ===== src/Mihon/Merges.antt =====
-- What the merges of a reload in rust/mihon/src/extension.rs do to the text of a search setting.
use dion_runtime.Base.{
  ◌≡◌, refl, ◌∙◌, subst, Bool, true, false, ◌&&◌, Option, none, some, List, [], ◌∷◌, map, arith,
  any, String, ◌==◌, string_eq, nat_eq, codes, Bool-cases, inl, inr,
}
use dion_runtime.Base.Maps.{lookup, insert, lookup-insert, lookup-insert_self}
use dion_runtime.Settings.{Carried, SettingKind, Setting, SettingValue, SettingsUi, overwrite}
use dion_runtime.Settings.Store.{SettingMap, SettingStore, carried_over, merge_setting_definition}
use dion_runtime.Mihon.Filters.{
  FilterDto, PreferenceDto, filter_value, filter_to_setting, preference_to_setting, defined_filter,
  setting_to_filter,
}
use dion_runtime.Base.Texts.{map_option}
use dion_runtime.Mihon.Sources.{merge_defined, merge_filters, merge_preferences}

-- Whether the filter is a check box of this name.
abbrev pub is_check_box : String → FilterDto → Bool
is_check_box id f = f.name == id && f.filter_type == "CheckBox"

-- Whether the filter has this name and this state.
abbrev pub has_state : String → String → FilterDto → Bool
has_state id v f = f.name == id && f.state == v

module _ {x : Carried} where
  -- The search setting `id` has the text `v`.
  abbrev pub Chosen : String → String → SettingStore x → Type 0
  Chosen id v s =
      (setting : Setting x) × (lookup id s.search_setting ≡ some setting)
      × (setting.value ≡ SettingValue.string v)

  -- Whether a filter has no setting or one with text.
  abbrev is_text : Option (SettingValue x × Option (SettingsUi x)) → Bool
  is_text none = true
  is_text (some (SettingValue.string w, ui)) = true
  is_text (some (_, ui)) = false

is_text-filter_value :
    (x : Carried) (f : FilterDto)
    → (f.filter_type == "CheckBox") ≡ false
    → is_text (filter_value {x = x} f) ≡ true
unfolding filter_value
is_text-filter_value x f h = ground arith

module _ {x : Carried} where
  carried-Chosen :
      (w v : String) (definition current : Setting x)
      → definition.value ≡ SettingValue.string w
      → current.value ≡ SettingValue.string v
      → (carried_over definition (some current)).value ≡ SettingValue.string v
  unfolding overwrite
  carried-Chosen w v definition current d c = rw (d, c) refl

  lookup-insert_other :
      (id j : String) (new : Setting x) (m : List (String × Setting x))
      → (j == id) ≡ false
      → lookup id (insert j new m) ≡ lookup id m
  lookup-insert_other id j new m n = lookup-insert j id new m ∙ rw n refl

  merge_self-Chosen :
      (id v w : String) (s : SettingStore x) (definition : Setting x)
      → definition.value ≡ SettingValue.string w
      → Chosen id v s
      → Chosen id v (merge_setting_definition s id SettingKind.search definition).1
  unfolding merge_setting_definition
  merge_self-Chosen id v w s definition d (setting, found, c) =
      elim (Bool-cases (any (λ c. c == b'/') (codes id))) [
        | inl bad ↦ rw bad (setting, found, c)
        | inr good ↦
            rw (good, found)
              (
                carried_over definition (some setting),
                lookup-insert_self id (carried_over definition (some setting)) s.search_setting,
                carried-Chosen w v definition setting d c,
              )
      ]

  merge_other-Chosen :
      (id j v : String) (s : SettingStore x) (definition : Setting x)
      → (j == id) ≡ false
      → Chosen id v s
      → Chosen id v (merge_setting_definition s j SettingKind.search definition).1
  unfolding merge_setting_definition
  merge_other-Chosen id j v s definition n (setting, found, c) =
      let new = carried_over definition (lookup j s.search_setting) in
      elim (Bool-cases (any (λ c. c == b'/') (codes j))) [
        | inl bad ↦ rw bad (setting, found, c)
        | inr good ↦ rw good (setting, lookup-insert_other id j new s.search_setting n ∙ found, c)
      ]

  merge_defined-search :
      (d : Option (String × Setting x)) (s : SettingStore x)
      → (merge_defined SettingKind.extension d s).search_setting ≡ s.search_setting
  unfolding merge_setting_definition
  merge_defined-search none s = refl
  merge_defined-search (some (j, definition)) s =
      elim (Bool-cases (any (λ c. c == b'/') (codes j))) [
        | inl bad ↦ rw (merge_defined, bad) refl
        | inr good ↦ rw (merge_defined, good) refl
      ]

  pub merge_preferences-search :
      (ps : List (PreferenceDto x)) (s : SettingStore x)
      → (merge_preferences ps s).search_setting ≡ s.search_setting
  unfolding merge_preferences
  merge_preferences-search [] s = refl
  merge_preferences-search (p ∷ ps) s =
      merge_preferences-search ps (merge_defined SettingKind.extension (preference_to_setting p) s)
      ∙ merge_defined-search (preference_to_setting p) s

  defined_self-Chosen :
      (id v : String) (s : SettingStore x) (d : Option (SettingValue x × Option (SettingsUi x)))
      → is_text d ≡ true
      → Chosen id v s
      → Chosen id v (merge_defined SettingKind.search (map_option (defined_filter id) d) s)
  defined_self-Chosen id v s none t h = h
  defined_self-Chosen id v s (some (SettingValue.string w, ui)) t h =
      merge_self-Chosen id v w s (defined_filter id (SettingValue.string w, ui)).1 refl h
  defined_self-Chosen id v s (some (SettingValue.number _, ui)) t h = absurd (cc t)
  defined_self-Chosen id v s (some (SettingValue.boolean _, ui)) t h = absurd (cc t)
  defined_self-Chosen id v s (some (SettingValue.string_list _, ui)) t h = absurd (cc t)

  defined_other-Chosen :
      (id j v : String) (s : SettingStore x) (d : Option (SettingValue x × Option (SettingsUi x)))
      → (j == id) ≡ false
      → Chosen id v s
      → Chosen id v (merge_defined SettingKind.search (map_option (defined_filter j) d) s)
  defined_other-Chosen id j v s none n h = h
  defined_other-Chosen id j v s (some d) n h =
      merge_other-Chosen id j v s (defined_filter j d).1 n h

  merge_filter-Chosen :
      (id v : String) (f : FilterDto) (s : SettingStore x)
      → is_check_box id f ≡ false
      → Chosen id v s
      → Chosen id v (merge_defined SettingKind.search (filter_to_setting f) s)
  unfolding filter_to_setting
  merge_filter-Chosen id v f s n h = elim (Bool-cases (f.name == id)) [
    | inl same ↦
        subst
          (λ i.
            Chosen i v s
            → Chosen i v (
                merge_defined SettingKind.search
                  (map_option (defined_filter f.name) (filter_value f)) s))
          ((string_eq.beq_iff f.name id).0 same)
          (defined_self-Chosen f.name v s (filter_value f)
            (is_text-filter_value x f (rw same at n)))
          h
    | inr other ↦ defined_other-Chosen id f.name v s (filter_value f) other h
  ]

  pub merge_filters-Chosen :
      (id v : String) (fs : List FilterDto) (s : SettingStore x)
      → any (is_check_box id) fs ≡ false
      → Chosen id v s
      → Chosen id v (merge_filters fs s)
  unfolding merge_filters
  merge_filters-Chosen id v [] s n h = h
  merge_filters-Chosen id v (f ∷ fs) s n h =
      merge_filters-Chosen id v fs (merge_defined SettingKind.search (filter_to_setting f) s)
        (ground arith) (merge_filter-Chosen id v f s (ground arith) h)

  pub any-has_state :
      (f32_string : x.F32 → String) (id v : String) (setting : Setting x) (m : SettingMap x)
      → lookup id m ≡ some setting
      → setting.value ≡ SettingValue.string v
      → any (has_state id v) (map (setting_to_filter f32_string) m) ≡ true
  unfolding lookup
  any-has_state f32_string id v setting [] h c = absurd (cc h)
  any-has_state f32_string id v setting ((j, s) ∷ m) h c = elim (Bool-cases (j == id)) [
    | inl same ↦
        let e : some s ≡ some setting = rw same at h in
        let found : s.value ≡ SettingValue.string v = cc (e, c) in
        rw (same, found, (string_eq.beq_iff v v).1 refl) refl
    | inr other ↦ rw other (any-has_state f32_string id v setting m (rw other at h) c)
  ]
