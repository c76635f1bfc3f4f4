-- ===== src/Cache/Reads.antt =====
-- What `get` of rust/dion_extension/src/cache.rs makes of an index that is loaded.
use dion_runtime.Base.{
  ◌≡◌, refl, sym, subst, ap, Bool, true, false, Option, some, Text, String, string_eq, Result, ok,
  err, ◌∙◌,
}
use dion_runtime.Base.Maps.{lookup}
use dion_runtime.Client.{IsFaithful}
use dion_runtime.Cache.Types.{
  CacheError, CacheValue, json, binary, Duration, Index, Now, Platform, is_past, is_expired,
}
use dion_runtime.Cache.Exec.{pure, ◌>>◌}
use dion_runtime.Cache.Triples.{Ensures, Ensures-bind}
use dion_runtime.Cache.Handle.{CacheInner, State, validate_key, ensure_loaded}
use dion_runtime.Cache.Ops.{
  get, get_meta, refresh, value_of, payload_of, is_binary_value, expiry, new_meta,
}
use dion_runtime.Cache.Writes.{Stores}

module _ (p : Platform) where
  open p use {Disk, Json, key_hash, read, value_codec}

  value_of-payload_of :
      (value : CacheValue Json) (payload : Text)
      → IsFaithful value_codec
      → payload_of p value ≡ ok payload
      → value_of p (is_binary_value p value) payload ≡ ok value
  value_of-payload_of (json v) payload faithful e = rw (faithful.round_trip v payload e)
  value_of-payload_of (binary bytes) payload faithful e = cc

  refresh_lem :
      (b : Bool) (now : Now) (key : String) (value : CacheValue Json) (s : State p)
      → Ensures
          (λ r s'. r ≡ some value)
          (λ _. b ≡ true)
          ((refresh p b now key >> pure (some value)) s)
  refresh_lem false now key value s = refl
  refresh_lem true now key value s =
      Ensures-bind (λ _ _. Unit {0}) (λ r s'. r ≡ some value) (λ _. ◌≡◌ {A = Bool} true true)
        (refresh p true now key s) (λ _. pure (some value)) (either (refresh p true now key s))
        (λ _ _ _. refl)
    where
      either :
          (r : Result CacheError (Unit {0}) × State p)
          → Ensures (λ _ _. Unit {0}) (λ _. ◌≡◌ {A = Bool} true true) r
      either (ok a, s') = tt
      either (err e, s') = refl

  -- On a loaded index `get` goes straight to the entry.
  pub get_loaded :
      (now : Now) (key : String) (b : Bool) (c : CacheInner) (ix : Index) (disk : Disk)
      → validate_key key ≡ ok tt
      → get p now key b (record c { index = some ix }, disk)
        ≡ get_meta p now key b (lookup key ix) (record c { index = some ix }, disk)
  unfolding get ensure_loaded
  get_loaded now key b c ix disk valid = rw valid

  -- A state whose index is known.
  pub loaded_state :
      (s : State p) (ix : Index) → s.0.index ≡ some ix → s ≡ (record s.0 { index = some ix }, s.1)
  loaded_state s ix e = ap (λ o. (record s.0 { index = o }, s.1)) e

  pub get_stored :
      (now now' : Now) (key : String) (value : CacheValue Json) (ttl : Option Duration) (b : Bool)
      (s : State p)
      → IsFaithful value_codec
      → validate_key key ≡ ok tt
      → Stores p now key value ttl s
      → is_past now' (expiry now ttl) ≡ false
      → Ensures (λ r s'. r ≡ some value) (λ _. b ≡ true) (get p now' key b s)
  unfolding is_expired
  get_stored now now' key value ttl b s faithful valid st alive =
      let h = st.holding in
      let s1 : State p = (record s.0 { index = some h.index }, s.1) in
      let Q = Ensures (λ r (s' : State p). r ≡ some value) (λ _. b ≡ true) in
      let found : get p now' key b s1
          ≡ get_meta p now' key b (some (new_meta p now key value st.payload ttl st.tick)) s1 =
        get_loaded now' key b s.0 h.index s.1 valid
        ∙ ap (λ o. get_meta p now' key b o s1) h.found in
      subst (λ t. Q (get p now' key b t)) (sym (loaded_state s h.index h.loaded))
        (subst Q (sym found) (
          rw (alive, h.file)
            (rw (value_of-payload_of value st.payload faithful st.encoded)
              (refresh_lem b now' key value s1))))
