-- ===== src/Mihon/Choices.antt =====
-- What a reload of a source in rust/mihon/src/extension.rs does to the user's choices.
use dion_runtime.Base.{
  ◌≡◌, refl, ◌∙◌, true, false, Option, List, [], ◌∷◌, map, any, String, string_eq, nat_eq, codes,
  is_prefix, ap, Result, ok, err,
}
use dion_runtime.Settings.{Carried}
use dion_runtime.Settings.Store.{SettingMap}
use dion_runtime.Mihon.Filters.{FilterDto, setting_to_filter}
use dion_runtime.Base.Texts.{unwrap_or}
use dion_runtime.Client.{Client, Codec, Fault}
use dion_runtime.Base.Action.{Action}
use dion_runtime.Timestamp.{ℤ}
use dion_runtime.Mihon.Dto.Types.{Embedded, MihonSourceType, MangasPageDto}
use dion_runtime.Mihon.Sources.{
  Json, Bridge, MihonExtension, or_empty, merge_filters, reload, search, search_by, answered,
  next_page, parse_filter_string, settings_to_filter_json,
}
use dion_runtime.Mihon.Merges.{
  is_check_box, has_state, Chosen, merge_preferences-search, merge_filters-Chosen, any-has_state,
}

module _ {x : Carried} {P : Type 0} (json : Json x) (bridge : Bridge x) (client : Client P)
    (codec : Codec (SettingMap x)) (y : Embedded) (timestamp_millis_opt : ℤ → Option y.DateTime)
    (now : ℤ) where
  reload_keeps :
      (id v : String) (e : MihonExtension json bridge client codec y timestamp_millis_opt now)
      → any (is_check_box id) (or_empty (bridge.get_filter_list e.jvm).0) ≡ false
      → Chosen id v e.store
      → Chosen id v (reload json bridge client codec y timestamp_millis_opt now e).1.store
  unfolding reload
  reload_keeps id v e n h =
      let filters = or_empty (bridge.get_filter_list e.jvm).0 in
      let preferences = or_empty (bridge.get_preference_list (bridge.get_filter_list e.jvm).1).0 in
      rw (merge_preferences-search preferences (merge_filters filters e.store))
        (merge_filters-Chosen id v filters e.store n h)

  -- The call of the bridge that looks for a query with filters, by the type of the source.
  abbrev pub bridge_search :
      MihonSourceType → ℤ → String → String → Action bridge.Jvm Fault MangasPageDto
  bridge_search MihonSourceType.manga = bridge.search
  bridge_search MihonSourceType.anime = bridge.search_anime
  bridge_search MihonSourceType.novel = bridge.search

  jvm-answered :
      (e : MihonExtension json bridge client codec y timestamp_millis_opt now)
      (r : Result Fault MangasPageDto × bridge.Jvm)
      → (answered json bridge client codec y timestamp_millis_opt now e r).1.jvm ≡ r.1
  jvm-answered e (ok page, jvm) = refl
  jvm-answered e (err fault, jvm) = refl

  search_by_lem :
      (t : MihonSourceType) (n : ℤ) (query filters : String) (jvm : bridge.Jvm)
      → search_by json bridge client codec y timestamp_millis_opt now t n query filters jvm
        ≡ bridge_search t n query filters jvm
  search_by_lem MihonSourceType.manga n query filters jvm = refl
  search_by_lem MihonSourceType.anime n query filters jvm = refl
  search_by_lem MihonSourceType.novel n query filters jvm = refl

  -- A search of the source for the query calls the bridge with it and with filters of which one has
  -- the name and the state.
  abbrev pub Sends :
      String
      → String
      → String
      → ℤ
      → MihonExtension json bridge client codec y timestamp_millis_opt now
      → Type 0
  Sends id v query page e =
      (filters : List FilterDto) × (any (has_state id v) filters ≡ true)
      × ((search json bridge client codec y timestamp_millis_opt now page query e).1.jvm
          ≡ (bridge_search e.source_type (next_page page) query
              (unwrap_or (json.filters_string filters) "") e.jvm).1)

  search-Sends :
      (id v query : String) (page : ℤ)
      (e : MihonExtension json bridge client codec y timestamp_millis_opt now)
      → is_prefix (b'{' ∷ []) (codes query) ≡ false
      → is_prefix (b'[' ∷ []) (codes query) ≡ false
      → Chosen id v e.store
      → Sends id v query page e
  unfolding search parse_filter_string settings_to_filter_json
  search-Sends id v query page e object array (setting, found, c) =
      let filters = map (setting_to_filter json.f32_string) e.store.search_setting in
      let text = unwrap_or (json.filters_string filters) "" in
      (
        filters,
        any-has_state json.f32_string id v setting e.store.search_setting found c,
        rw (search, parse_filter_string, object, array)
            (jvm-answered e (
                search_by json bridge client codec y timestamp_millis_opt now e.source_type
                  (next_page page) query text e.jvm)
              ∙ ap (λ r. r.1) (search_by_lem e.source_type (next_page page) query text e.jvm)),
      )

  -- After a reload of a source, a search setting still has the text that the user chose; and a search
  -- for a text that begins with neither brace nor bracket then calls the bridge with this text and
  -- with the JSON of filters, or with an empty text where they cannot be written as JSON, of which one
  -- has the setting's name, and the user's choice as its state. This whatever filters and preferences
  -- the source now has, if no filter of that name is a check box, and also if the settings cannot be
  -- saved.
  pub reload-Chosen :
      (id v query : String) (page : ℤ)
      (e : MihonExtension json bridge client codec y timestamp_millis_opt now)
      → any (is_check_box id) (or_empty (bridge.get_filter_list e.jvm).0) ≡ false
      → is_prefix (b'{' ∷ []) (codes query) ≡ false
      → is_prefix (b'[' ∷ []) (codes query) ≡ false
      → Chosen id v e.store
      → Chosen id v (reload json bridge client codec y timestamp_millis_opt now e).1.store
        × Sends id v query page (reload json bridge client codec y timestamp_millis_opt now e).1
  reload-Chosen id v query page e n object array h =
      let kept = reload_keeps id v e n h in
      (
        kept,
        search-Sends id v query page
            (reload json bridge client codec y timestamp_millis_opt now e).1 object array kept,
      )
