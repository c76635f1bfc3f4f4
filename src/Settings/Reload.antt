-- ===== src/Settings/Reload.antt =====
-- What loading the settings of rust/core/src/store/settings.rs gives after they were saved.
use dion_runtime.Base.{
  ◌≡◌, ◌≢◌, refl, sym, ap, ◌∙◌, false, arith, Text, String, string_eq, Result, ok, err, is_blank,
  Result-cases, inl, inr,
}
use dion_runtime.Client.{Client, Codec, Fault, IsPersistent}
use dion_runtime.Base.Maps.{lookup}
use dion_runtime.Settings.{Carried, SettingKind, extension, search}
use dion_runtime.Settings.Store.{
  SettingMap, SettingStore, get_settings, get_setting, found_setting, load_map, load_state, new,
  save_map, save_second, save_state,
}

module _ {x : Carried} where
  -- Two maps with the same entries, in whatever order.
  abbrev pub IsSame : SettingMap x → SettingMap x → Type 0
  IsSame m n = (id : String) → lookup id m ≡ lookup id n

-- A map of settings whose text, where it can be written, is not blank and is read back as a map with
-- the same entries. A number that is not finite has no such text in JSON.
pub record ReadsBackMap {x : Carried} (c : Codec (SettingMap x)) (map : SettingMap x) : Type 0 where
  pub read_back :
      (t : Text)
      → c.to_string map ≡ ok t
      → (m : SettingMap x) × (c.from_str t ≡ ok m) × IsSame m map
  pub not_blank : (t : Text) → c.to_string map ≡ ok t → is_blank t ≡ false

module _ {P : Type 0} (client : Client P) {x : Carried} (codec : Codec (SettingMap x)) where
  open client use {Host, load_data, store_data}

  -- The host has text for the key that parses to a map with the entries of this one.
  abbrev Kept : String → SettingMap x → Host → Type 0
  Kept key map host =
      (text : Text) × (load_data key host ≡ ok text)
      × (is_blank text ≡ false)
      × ((m : SettingMap x) × (codec.from_str text ≡ ok m) × IsSame m map)

  load_map-Kept :
      (key : String) (old map : SettingMap x) (host : Host)
      → Kept key map host
      → (m : SettingMap x) × (load_map client codec key old host ≡ ok m) × IsSame m map
  unfolding load_map
  load_map-Kept key old map host (text, found, full, read) =
      let (m, parsed, same) = read in (m, ground arith, same)

  load_state-Kept :
      (s old : SettingStore x) (host : Host)
      → Kept "extension_settings" s.extension_setting host
      → Kept "search_settings" s.search_setting host
      → (kind : SettingKind) (id : String)
      → get_setting (load_state client codec old host).1 id kind ≡ get_setting s id kind
  unfolding load_state get_setting
  load_state-Kept s old host h k kind id =
      let (ext, e, same_ext) =
        load_map-Kept "extension_settings" old.extension_setting s.extension_setting host h in
      let (found, f, same_found) =
        load_map-Kept "search_settings" old.search_setting s.search_setting host k in
      rw (load_state, e, f) (found_in kind id ext found same_ext same_found)
    where
      found_in :
          (kind : SettingKind) (id : String) (ext found : SettingMap x)
          → IsSame ext s.extension_setting
          → IsSame found s.search_setting
          → found_setting kind id (
              lookup id
                (get_settings (record { extension_setting = ext; search_setting = found }) kind))
            ≡ found_setting kind id (lookup id (get_settings s kind))
      found_in extension id ext found h k = ap (found_setting extension id) (h id)
      found_in search id ext found h k = ap (found_setting search id) (k id)

  save_map-Kept :
      (key : String) (map : SettingMap x) (host : Host)
      → IsPersistent client
      → ReadsBackMap codec map
      → (save_map client codec key map host).0 ≡ ok tt
      → Kept key map (save_map client codec key map host).1
  unfolding save_map
  save_map-Kept key map host keeps reads saved = elim (Result-cases (codec.to_string map)) [
    | inl (text, e) ↦
        let stored = rw (e, save_map) at saved in
        rw (e, save_map)
          (
            text,
            keeps.load-store key text host stored,
            reads.not_blank text e,
            reads.read_back text e,
          )
    | inr (c, e) ↦ absurd (cc (rw (e, save_map) at saved))
  ]

  save_map-Kept_ne :
      (key j : String) (map other : SettingMap x) (host : Host)
      → IsPersistent client
      → key ≢ j
      → Kept j other host
      → Kept j other (save_map client codec key map host).1
  unfolding save_map
  save_map-Kept_ne key j map other host keeps n (text, found, full, parsed) =
      elim (Result-cases (codec.to_string map)) [
        | inl (bytes, e) ↦
            rw (e, save_map) (text, keeps.load-store_ne key j bytes host n ∙ found, full, parsed)
        | inr (c, e) ↦ rw (e, save_map) (text, found, full, parsed)
      ]

  both_saved :
      (s : SettingStore x) (r : Result Fault (Unit {0}) × Host)
      → (save_second client codec s r).0 ≡ ok tt
      → (r.0 ≡ ok tt)
        × (save_second client codec s r
            ≡ save_map client codec "search_settings" s.search_setting r.1)
  both_saved s (ok a, host) h = (refl, refl)
  both_saved s (err e, host) h = absurd (cc h)

  -- With a host that keeps what it stores under each key, and for settings whose two maps have texts
  -- that are not blank and are read back as maps with the same entries: once `save_state` has
  -- succeeded, in the settings loaded afresh from that host each lookup, of either kind, gives what it
  -- gives in the settings that were saved.
  pub reload_settings :
      (s : SettingStore x) (host : Host) (kind : SettingKind) (id : String)
      → IsPersistent client
      → ReadsBackMap codec s.extension_setting
      → ReadsBackMap codec s.search_setting
      → (save_state client codec s host).0 ≡ ok tt
      → get_setting (new client codec (save_state client codec s host).1) id kind
        ≡ get_setting s id kind
  unfolding save_state new
  reload_settings s host kind id keeps reads_ext reads_search saved =
      let first = save_map client codec "extension_settings" s.extension_setting host in
      let (done, same) = both_saved s first saved in
      let both : (save_map client codec "search_settings" s.search_setting first.1).0 ≡ ok tt =
        sym (ap (λ r. r.0) same) ∙ saved in
      let kept = save_map-Kept "extension_settings" s.extension_setting host keeps reads_ext done in
      rw same (
        load_state-Kept s _ _
          (save_map-Kept_ne "search_settings" "extension_settings" s.search_setting
            s.extension_setting first.1 keeps (λ e. cc e) kept)
          (save_map-Kept "search_settings" s.search_setting first.1 keeps reads_search both) kind
          id)
