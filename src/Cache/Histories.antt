-- ===== src/Cache/Histories.antt =====
-- Every sequence of calls of rust/dion_extension/src/cache.rs keeps the invariant `IsSound`.
use dion_runtime.Base.{
  ℕ, sym, subst, Bool, true, false, Option, none, some, List, [], ◌∷◌, Text, String, inl, inr,
  Result, ok, err, Option-cases, string_eq, option_eq, nat_eq,
}
use dion_runtime.Base.Maps.{lookup}
use dion_runtime.Client.{Fault, IsFaithful}
use dion_runtime.Cache.Types.{
  CacheEntryMeta, Index, Now, Platform, snapshot_of, is_expired, index_file,
}
use dion_runtime.Cache.Disk.{IsFileSystem}
use dion_runtime.Cache.Exec.{faulty}
use dion_runtime.Cache.Triples.{Keeps, Keeps-bind, Keeps-pure, Keeps-lift, Keeps-if}
use dion_runtime.Cache.Handle.{State, validate_key, quietly, with_index, write_index, set_index}
use dion_runtime.Cache.Ops.{
  get, has, delete_all, purge_expired, live_keys, live_size, clear, touch_meta, value_of,
  expired_keys, get_meta, has_meta, get_file, read_entry, refresh,
}
use dion_runtime.Cache.History.{Call, perform, run, forget_result}
use dion_runtime.Cache.Keeps.{
  with_index-Keeps, ensure_loaded-IsSound, next_tick-IsSound, or_empty-IsGood, set-IsSound,
  delete-IsSound,
}
use dion_runtime.Cache.Sound.{
  IsGood, IsGood-nil, IsGood-insert, IsSound, Stored, Stored-err, write_index-IsSound,
  create_dir-IsSound,
}

module _ (p : Platform) (fs : IsFileSystem p) (faithful : IsFaithful p.index_codec) where
  open p use {Disk, Json, key_hash, read}

  touch-IsGood :
      (key : String) (tick : ℕ) (ix : Index)
      → IsGood key_hash ix
      → IsGood key_hash (touch_meta p key tick ix)
  touch-IsGood key tick ix g = elim (Option-cases (lookup key ix)) [
    | inl absent ↦ rw (absent, touch_meta) g
    | inr (m, found) ↦
        rw (found, touch_meta)
          (IsGood-insert key_hash key (record m { last_access = tick }) ix (g.hashed key m found) g)
  ]

  refresh-IsSound : (b : Bool) (now : Now) (key : String) → Keeps (IsSound p) (refresh p b now key)
  refresh-IsSound false now key = Keeps-pure tt
  refresh-IsSound true now key = Keeps-bind _ _ (next_tick-IsSound p fs faithful now) λ tick.
      with_index-Keeps p fs faithful
        (λ ix. let ix' = touch_meta p key tick ix in (ix', snapshot_of ix')) (write_index p)
        (λ ix g. touch-IsGood key tick ix g)
        λ ix g. write_index-IsSound p fs faithful _ (touch-IsGood key tick ix g)

  get_file-IsSound :
      (now : Now) (key : String) (b : Bool) (m : CacheEntryMeta) (r : Result Fault Text)
      → Keeps (IsSound p) (get_file p now key b m r)
  get_file-IsSound now key b m (err e) =
      Keeps-bind _ _ (delete-IsSound p fs faithful key) λ _. Keeps-pure none
  get_file-IsSound now key b m (ok bytes) =
      Keeps-bind _ _ (Keeps-lift (faulty (value_of p m.is_binary bytes)))
        λ value. Keeps-bind _ _ (refresh-IsSound b now key) λ _. Keeps-pure (some value)

  get_meta-IsSound :
      (now : Now) (key : String) (b : Bool) (o : Option CacheEntryMeta)
      → Keeps (IsSound p) (get_meta p now key b o)
  get_meta-IsSound now key b none = Keeps-pure none
  get_meta-IsSound now key b (some meta) =
      Keeps-if (is_expired now meta) _ _
        (Keeps-bind _ _ (delete-IsSound p fs faithful key) λ _. Keeps-pure none)
        (Keeps-bind (read_entry p key) _ (record { at = λ s h. h })
          λ found. get_file-IsSound now key b meta found)

  pub get-IsSound : (now : Now) (key : String) (b : Bool) → Keeps (IsSound p) (get p now key b)
  unfolding get
  get-IsSound now key b = Keeps-bind _ _ (Keeps-lift (validate_key key)) λ _.
      Keeps-bind _ _ (ensure_loaded-IsSound p fs faithful) λ _.
        with_index-Keeps p fs faithful (λ ix. (ix, lookup key ix)) (get_meta p now key b)
          (λ ix g. g) λ ix g. get_meta-IsSound now key b (lookup key ix)

  has_meta-IsSound :
      (now : Now) (key : String) (o : Option CacheEntryMeta)
      → Keeps (IsSound p) (has_meta p now key o)
  has_meta-IsSound now key none = Keeps-pure false
  has_meta-IsSound now key (some meta) =
      Keeps-if (is_expired now meta) _ _
        (Keeps-bind _ _ (delete-IsSound p fs faithful key) λ _. Keeps-pure false) (Keeps-pure true)

  pub has-IsSound : (now : Now) (key : String) → Keeps (IsSound p) (has p now key)
  unfolding has
  has-IsSound now key = Keeps-bind _ _ (Keeps-lift (validate_key key)) λ _.
      Keeps-bind _ _ (ensure_loaded-IsSound p fs faithful) λ _.
        with_index-Keeps p fs faithful (λ ix. (ix, lookup key ix)) (has_meta p now key) (λ ix g. g)
          λ ix g. has_meta-IsSound now key (lookup key ix)

  delete_all-IsSound : (keys : List String) → Keeps (IsSound p) (delete_all p keys)
  unfolding delete_all
  delete_all-IsSound [] = Keeps-pure tt
  delete_all-IsSound (key ∷ keys) =
      Keeps-bind _ _ (delete-IsSound p fs faithful key) λ _. delete_all-IsSound keys

  pub purge_expired-IsSound : (now : Now) → Keeps (IsSound p) (purge_expired p now)
  unfolding purge_expired
  purge_expired-IsSound now = Keeps-bind _ _ (ensure_loaded-IsSound p fs faithful) λ _.
      with_index-Keeps p fs faithful (λ ix. (ix, expired_keys p now ix)) (delete_all p) (λ ix g. g)
        λ ix g. delete_all-IsSound (expired_keys p now ix)

  remove_dir-IsSound : Keeps (IsSound p) (quietly p p.remove_cache_dir)
  remove_dir-IsSound = record {
    at = λ s h. record {
      memory = h.memory;
      disk = elim (fs.read-remove_dir index_file s.1) [
        | inl same ↦ subst (Stored p) (sym same) h.disk
        | inr (e, gone) ↦ subst (Stored p) (sym gone) (Stored-err p fs faithful e)
      ];
    };
  }

  forget-IsSound : Keeps (IsSound p) (set_index p none)
  forget-IsSound = record { at = λ s h. record { memory = tt; disk = h.disk } }

  empty-IsSound : Keeps (IsSound p) (with_index p (λ _. ([], tt {0})))
  empty-IsSound = record { at = λ s h. record { memory = IsGood-nil key_hash; disk = h.disk } }

  clear-IsSound : Keeps (IsSound p) (clear p)
  unfolding clear
  clear-IsSound = Keeps-bind _ _ remove_dir-IsSound λ _. Keeps-bind _ _ forget-IsSound λ _.
      Keeps-bind _ _ (create_dir-IsSound p fs faithful) λ _.
        Keeps-bind _ _ (write_index-IsSound p fs faithful (snapshot_of []) (IsGood-nil key_hash))
          λ _. empty-IsSound

  call-IsSound : (c : Call Json) → Keeps (IsSound p) (perform p c)
  unfolding perform live_keys live_size
  call-IsSound (Call.set now key value ttl) =
      forget_result _ (set-IsSound p fs faithful now key value ttl)
  call-IsSound (Call.get now key b) = forget_result _ (get-IsSound now key b)
  call-IsSound (Call.has now key) = forget_result _ (has-IsSound now key)
  call-IsSound (Call.delete key) = delete-IsSound p fs faithful key
  call-IsSound (Call.keys now) = forget_result _ (
      Keeps-bind _ _ (purge_expired-IsSound now) λ _. record {
        at = λ s h. record {
          memory = or_empty-IsGood p fs faithful s.0.index h.memory;
          disk = h.disk;
        };
      })
  call-IsSound (Call.size now) = forget_result _ (
      Keeps-bind _ _ (purge_expired-IsSound now) λ _. record {
        at = λ s h. record {
          memory = or_empty-IsGood p fs faithful s.0.index h.memory;
          disk = h.disk;
        };
      })
  call-IsSound Call.clear = clear-IsSound

  -- Whatever the calls, in whatever order, and whether they succeed or fail: from a sound state
  -- they lead to a sound state, in which no key stands twice in the index, every entry has the hash
  -- of its key, and the index file, if it can be read, holds such an index too.
  pub run-IsSound :
      (calls : List (Call Json)) (s : State p) → IsSound p s → IsSound p (run p calls s)
  unfolding run
  run-IsSound [] s h = h
  run-IsSound (c ∷ calls) s h = run-IsSound calls (perform p c s).1 ((call-IsSound c).at s h)
