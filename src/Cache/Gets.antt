-- ===== src/Cache/Gets.antt =====
-- What `get` of rust/dion_extension/src/cache.rs returns after `set`, after `delete` and past an
-- expiry.
use dion_runtime.Base.{
  ◌≡◌, ◌≢◌, refl, sym, subst, ap, Bool, true, false, Option, none, some, String, string_eq, Result,
  ok, err, ◌∙◌,
}
use dion_runtime.Base.Maps.{lookup}
use dion_runtime.Client.{IsFaithful}
use dion_runtime.Cache.Types.{
  CacheEntryMeta, CacheError, CacheValue, Duration, Index, Now, Platform, is_past, is_expired,
}
use dion_runtime.Cache.Disk.{IsFileSystem}
use dion_runtime.Cache.Exec.{pure, continue}
use dion_runtime.Cache.Triples.{Ensures, Ensures_ok}
use dion_runtime.Cache.Handle.{State, validate_key, ensure_loaded}
use dion_runtime.Cache.Ops.{set, get, delete, get_meta, or_default, expiry}
use dion_runtime.Cache.Sound.{IsSound}
use dion_runtime.Cache.Writes.{IsCollisionFree, Stores}
use dion_runtime.Cache.Reads.{get_stored, get_loaded, loaded_state}
use dion_runtime.Cache.Removes.{Absent, delete-Absent, removed-Absent}
use dion_runtime.Cache.Evicts.{MeetsEntries}
use dion_runtime.Cache.Stores.{set-Stores}

module _ (p : Platform) where
  open p use {Disk, Json, key_hash}

  module _ (fs : IsFileSystem p) (faithful : IsFaithful p.index_codec) where
    -- From a sound state, with a key hash that has no collisions and faithful codecs: after a `set`
    -- that succeeded, a `get` of the key before the entry's expiry returns the value. With
    -- `update_recency` it may instead fail to write the index; it never returns anything else.
    pub get-set :
        (now now' : Now) (key : String) (value : CacheValue Json) (ttl : Option Duration) (b : Bool)
        (s : State p)
        → IsCollisionFree key_hash
        → IsFaithful p.value_codec
        → IsSound p s
        → (set p now key value ttl s).0 ≡ ok tt
        → is_past now' (expiry now (or_default ttl s.0.policy.default_ttl)) ≡ false
        → Ensures
            (λ r s'. r ≡ some value)
            (λ _. b ≡ true)
            (get p now' key b (set p now key value ttl s).1)
    get-set now now' key value ttl b s free values sound done alive =
        let default = or_default ttl s.0.policy.default_ttl in
        let (valid, stored) =
          Ensures_ok (λ _ s'. (validate_key key ≡ ok tt) × Stores p now key value default s')
            (λ _. Unit {0}) (set p now key value ttl s) tt
            (set-Stores p fs faithful now key value ttl s free sound) done in
        get_stored p now now' key value default b _ values valid stored alive

    -- From a sound state, with a key hash that has no collisions, a faithful codec of the index and a
    -- file system that keeps what it is given: after a `set` that succeeded, the index has the key, and
    -- under a limit of entries at most that many of them, or one where the limit is 0.
    pub set-MeetsEntries :
        (now : Now) (key : String) (value : CacheValue Json) (ttl : Option Duration) (s : State p)
        → IsCollisionFree key_hash
        → IsSound p s
        → (set p now key value ttl s).0 ≡ ok tt
        → (ix : Index) × ((set p now key value ttl s).1.0.index ≡ some ix)
          × (lookup key ix ≢ none)
          × MeetsEntries (set p now key value ttl s).1.0.policy.max_entries ix
    set-MeetsEntries now key value ttl s free sound done =
        let default = or_default ttl s.0.policy.default_ttl in
        let (valid, stored) =
          Ensures_ok (λ _ s'. (validate_key key ≡ ok tt) × Stores p now key value default s')
            (λ _. Unit {0}) (set p now key value ttl s) tt
            (set-Stores p fs faithful now key value ttl s free sound) done in
        let h = stored.holding in (h.index, h.loaded, λ e. cc (e, h.found), h.limited)

  get-Absent :
      (now : Now) (key : String) (b : Bool) (s : State p)
      → validate_key key ≡ ok tt
      → Absent p key s
      → (get p now key b s).0 ≡ ok none
  get-Absent now key b s valid a =
      let s1 : State p = (record s.0 { index = some a.index }, s.1) in
      let found : get p now key b s1 ≡ get_meta p now key b none s1 =
        get_loaded p now key b s.0 a.index s.1 valid ∙ ap (λ o. get_meta p now key b o s1) a.gone in
      ap (λ t. (get p now key b t).0) (loaded_state p s a.index a.loaded) ∙ ap (λ r. r.0) found

  -- After a `delete` that succeeded, a `get` of the key finds nothing, at any time and whatever the
  -- file system did.
  pub get-delete :
      (now : Now) (key : String) (b : Bool) (s : State p)
      → (delete p key s).0 ≡ ok tt
      → (get p now key b (delete p key s).1).0 ≡ ok none
  get-delete now key b s done =
      let (valid, absent) =
        Ensures_ok (λ _ s'. (validate_key key ≡ ok tt) × Absent p key s') (λ _. Unit {0})
          (delete p key s) tt (delete-Absent p key s) done in
      get-Absent now key b _ valid absent

  -- A `get` of a valid key with an entry in the loaded index whose expiry has been reached returns
  -- nothing, or fails to write the index; in both cases the entry is gone from the index.
  pub get_expired :
      (now : Now) (key : String) (b : Bool) (s : State p) (ix : Index) (meta : CacheEntryMeta)
      → validate_key key ≡ ok tt
      → s.0.index ≡ some ix
      → lookup key ix ≡ some meta
      → is_expired now meta ≡ true
      → Ensures (λ r s'. (r ≡ none) × Absent p key s') (Absent p key) (get p now key b s)
  get_expired now key b s ix meta valid loaded found late =
      let s1 : State p = (record s.0 { index = some ix }, s.1) in
      let Q =
        Ensures (λ (r : Option (CacheValue Json)) s'. (r ≡ none) × Absent p key s')
          (Absent p key) in
      let same : get p now key b s1 ≡ get_meta p now key b (some meta) s1 =
        get_loaded p now key b s.0 ix s.1 valid ∙ ap (λ o. get_meta p now key b o s1) found in
      let removed : Absent p key (delete p key s1).1 =
        unfold delete ensure_loaded in rw valid (removed-Absent p key s1) in
      subst (λ t. Q (get p now key b t)) (sym (loaded_state p s ix loaded))
        (subst Q (sym same) (rw late (finish (delete p key s1) removed)))
    where
      finish :
          (r : Result CacheError (Unit {0}) × State p)
          → Absent p key r.1
          → Ensures
              (λ (o : Option (CacheValue Json)) s'. (o ≡ none) × Absent p key s')
              (Absent p key)
              (continue r (λ _. pure none))
      finish (ok a, t) h = (refl, h)
      finish (err e, t) h = h
