-- ===== src/Cache/Ops.antt =====
-- The operations of `CacheInner` in rust/dion_extension/src/cache.rs.
use dion_runtime.Base.{
  ℕ, ◌+◌, ◌%◌, Bool, true, false, not, Option, none, some, List, [], ◌∷◌, Text, String, ◌==◌,
  string_eq, nat_eq, option_eq, Result, ok, err, if◌then◌else◌, guard, filter, length,
}
use dion_runtime.Base.Maps.{lookup, insert, remove, keys}
use dion_runtime.Client.{Fault}
use dion_runtime.Cache.Types.{
  CacheEntryMeta, CacheValue, json, binary, Index, IndexSnapshot, entry_file, zero_ttl, Now,
  Platform, snapshot_of, u64_mod, Duration, duration_to_ms, is_expired,
}
use dion_runtime.Cache.Evict.{collect_evictions}
use dion_runtime.Cache.Exec.{Exec, pure, gets, lift, faulty, ◌>>=◌, ◌>>◌}
use dion_runtime.Cache.Handle.{
  State, validate_key, entry_path, io, quietly, with_index, write_atomic, write_index,
  ensure_loaded, next_tick, remove_entry_files, set_index,
}

-- `ttl.or(default_ttl)`
abbrev pub or_default : Option Duration → Option Duration → Option Duration
or_default (some d) default = some d
or_default none default = default

-- `.map(|d| now + duration_to_ms(d))`
abbrev pub expiry : Now → Option Duration → Option ℕ
expiry now none = none
expiry now (some d) = some ((now.millis % u64_mod + duration_to_ms d) % u64_mod)

module _ (p : Platform) where
  open p use {
    Json, Disk, value_codec, key_hash, read, remove_file, remove_cache_dir, create_entries_dir,
  }

  abbrev pub payload_of : CacheValue Json → Result Fault Text
  payload_of (json v) = value_codec.to_string v
  payload_of (binary bytes) = ok bytes

  abbrev pub is_binary_value : CacheValue Json → Bool
  is_binary_value (json v) = false
  is_binary_value (binary bytes) = true

  abbrev pub value_of : Bool → Text → Result Fault (CacheValue Json)
  value_of true bytes = ok (binary bytes)
  value_of false bytes = elim (value_codec.from_str bytes) [ err e ↦ err e | ok v ↦ ok (json v) ]

  -- The entry that `set` writes to the index.
  abbrev pub new_meta : Now → String → CacheValue Json → Text → Option Duration → ℕ → CacheEntryMeta
  new_meta now key value payload ttl tick = record {
    hash = key_hash key;
    is_binary = is_binary_value value;
    size = length payload % u64_mod;
    expires_at_ms = expiry now ttl;
    last_access = tick;
  }

  -- Insert, then evict under the policy of the moment.
  abbrev pub insert_and_evict :
      String → CacheEntryMeta → Exec (State p) (List (String × Text) × IndexSnapshot)
  insert_and_evict key meta = do
    policy ← gets (λ s. s.0.policy)
    with_index p (λ index.
        let (index', evictions) = collect_evictions policy (insert key meta index) key in
        (index', (evictions, snapshot_of index')))

  -- `set` from the index update on.
  abbrev pub store_entry :
      Now → String → CacheValue Json → Option Duration → Text → Exec (State p) (Unit {0})
  store_entry now key value ttl payload = do
    policy ← gets (λ s. s.0.policy)
    tick ← next_tick p now
    let meta = new_meta now key value payload (or_default ttl policy.default_ttl) tick
    r ← insert_and_evict key meta
    write_index p r.1
    remove_entry_files p r.0

  -- `set` from the encoding of the value on.
  abbrev pub write_entry :
      Now → String → CacheValue Json → Option Duration → Exec (State p) (Unit {0})
  write_entry now key value ttl = do
    payload ← lift (faulty (payload_of value))
    io p (write_atomic p (entry_path p key) payload)
    store_entry now key value ttl payload

  unfoldable pub set : Now → String → CacheValue Json → Option Duration → Exec (State p) (Unit {0})
  set now key value ttl = do
    lift (guard (not (ttl == some 0)) zero_ttl)
    lift (validate_key key)
    ensure_loaded p
    write_entry now key value ttl

  abbrev pub finish_delete : Option CacheEntryMeta → Exec (State p) (Unit {0})
  finish_delete none = pure tt
  finish_delete (some meta) = do
    snapshot ← with_index p (λ index. (index, snapshot_of index))
    write_index p snapshot
    quietly p (remove_file (entry_file meta.hash))

  unfoldable pub delete : String → Exec (State p) (Unit {0})
  delete key = do
    lift (validate_key key)
    ensure_loaded p
    removed ← with_index p (λ index. (remove key index, lookup key index))
    finish_delete removed

  abbrev pub touch_meta : String → ℕ → Index → Index
  touch_meta key tick index = elim (lookup key index) [
    | none ↦ index
    | some meta ↦ insert key (record meta { last_access = tick }) index
  ]

  abbrev pub refresh : Bool → Now → String → Exec (State p) (Unit {0})
  refresh false now key = pure tt
  refresh true now key = do
    tick ← next_tick p now
    snapshot ←
        with_index p
          (λ index. let index' = touch_meta key tick index in (index', snapshot_of index'))
    write_index p snapshot

  abbrev pub read_entry : String → Exec (State p) (Result Fault Text)
  read_entry key (c, disk) = (ok (read (entry_path p key) disk), (c, disk))

  abbrev pub get_file :
      Now
      → String
      → Bool
      → CacheEntryMeta
      → Result Fault Text
      → Exec (State p) (Option (CacheValue Json))
  get_file now key update_recency meta (err _) = do delete key; pure none
  get_file now key update_recency meta (ok bytes) = do
    value ← lift (faulty (value_of meta.is_binary bytes))
    refresh update_recency now key
    pure (some value)

  abbrev pub get_meta :
      Now → String → Bool → Option CacheEntryMeta → Exec (State p) (Option (CacheValue Json))
  get_meta now key update_recency none = pure none
  get_meta now key update_recency (some meta) =
      if is_expired now meta
      then (do delete key; pure none)
      else (do found ← read_entry key; get_file now key update_recency meta found)

  unfoldable pub get : Now → String → Bool → Exec (State p) (Option (CacheValue Json))
  unfolding delete
  get now key update_recency = do
    lift (validate_key key)
    ensure_loaded p
    meta ← with_index p (λ index. (index, lookup key index))
    get_meta now key update_recency meta

  abbrev pub has_meta : Now → String → Option CacheEntryMeta → Exec (State p) Bool
  has_meta now key none = pure false
  has_meta now key (some meta) =
      if is_expired now meta then (do delete key; pure false) else pure true

  unfoldable pub has : Now → String → Exec (State p) Bool
  unfolding delete
  has now key = do
    lift (validate_key key)
    ensure_loaded p
    meta ← with_index p (λ index. (index, lookup key index))
    has_meta now key meta

  unfoldable pub delete_all : List String → Exec (State p) (Unit {0})
  delete_all [] = pure tt
  delete_all (key ∷ expired) = delete key >> delete_all expired

  abbrev pub expired_keys : Now → Index → List String
  expired_keys now index = keys (filter (λ e. is_expired now e.1) index)

  unfoldable pub purge_expired : Now → Exec (State p) (Unit {0})
  unfolding delete_all
  purge_expired now = do
    ensure_loaded p
    expired ← with_index p (λ index. (index, expired_keys now index))
    delete_all expired

  unfoldable pub live_keys : Now → Exec (State p) (List String)
  unfolding purge_expired
  live_keys now = do purge_expired now; with_index p (λ index. (index, keys index))

  unfoldable pub live_size : Now → Exec (State p) ℕ
  unfolding purge_expired
  live_size now = do purge_expired now; with_index p (λ index. (index, length index))

  unfoldable pub clear : Exec (State p) (Unit {0})
  clear = do
    quietly p remove_cache_dir
    set_index p none
    io p create_entries_dir
    write_index p (snapshot_of [])
    with_index p (λ index. ([], tt))
