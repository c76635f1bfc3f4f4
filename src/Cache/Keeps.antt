-- ===== src/Cache/Keeps.antt =====
-- Every operation of rust/dion_extension/src/cache.rs keeps the invariant `IsSound`.
use dion_runtime.Base.{
  ◌≡◌, refl, not, Option, none, some, List, [], ◌∷◌, Text, String, inl, inr, Result, ok, err,
  Option-cases, ◌==◌, string_eq, option_eq, nat_eq, guard,
}
use dion_runtime.Base.Maps.{lookup, insert, remove}
use dion_runtime.Client.{Fault, IsFaithful}
use dion_runtime.Cache.Types.{
  CacheEntryMeta, CacheValue, zero_ttl, Duration, Index, IndexSnapshot, entry_file, Now, Platform,
  snapshot_of, index_file,
}
use dion_runtime.Cache.Evict.{collect_evictions}
use dion_runtime.Cache.Disk.{IsFileSystem}
use dion_runtime.Cache.Exec.{Exec, lift, faulty, ◌>>=◌, ◌>>◌}
use dion_runtime.Cache.Triples.{Keeps, Keeps-bind, Keeps-pure, Keeps-lift, Keeps-gets}
use dion_runtime.Cache.Handle.{
  CacheInner, State, validate_key, io, quietly, with_index, write_index, ensure_loaded, parse_index,
  next_tick, remove_entry_files, load_index, set_index, read_index, index_or_empty,
}
use dion_runtime.Cache.Ops.{
  set, delete, new_meta, insert_and_evict, or_default, payload_of, finish_delete,
}
use dion_runtime.Cache.Sound.{
  IsGood, IsGood-nil, IsGood-insert, IsGood-remove, IsGood-evictions, IsSound, Loaded,
  write_index-IsSound, write_entry-IsSound, remove_entry-IsSound, create_dir-IsSound,
}

module _ (p : Platform) (fs : IsFileSystem p) (faithful : IsFaithful p.index_codec) where
  open p use {Disk, Json, key_hash, read}

  pub or_empty-IsGood : (o : Option Index) → Loaded p o → IsGood key_hash (index_or_empty o)
  or_empty-IsGood none h = IsGood-nil key_hash
  or_empty-IsGood (some ix) h = h

  -- A step on the index, and what follows it, for good indices.
  pub with_index-Keeps :
      {R B : Type 0} (f : Index → Index × R) (k : R → Exec (State p) B)
      → ((ix : Index) → IsGood key_hash ix → IsGood key_hash (f ix).0)
      → ((ix : Index) → IsGood key_hash ix → Keeps (IsSound p) (k (f ix).1))
      → Keeps (IsSound p) (with_index p f >>= k)
  with_index-Keeps f k good next = record {
    at = λ s h.
        let ix = index_or_empty s.0.index in
        let g = or_empty-IsGood s.0.index h.memory in
        (next ix g).at _ (record { memory = good ix g; disk = h.disk });
  }

  set_parsed :
      (c : CacheInner) (d : Disk) (r : Result Fault IndexSnapshot)
      → ((snapshot : IndexSnapshot) → r ≡ ok snapshot → IsGood key_hash snapshot.entries)
      → IsSound p (c, d)
      → IsSound p
          ((lift (faulty r) >>= λ (t : IndexSnapshot). set_index p (some t.entries)) (c, d)).1
  set_parsed c d (ok snapshot) g h = record { memory = g snapshot refl; disk = h.disk }
  set_parsed c d (err e) g h = h

  load_index-IsSound : Keeps (IsSound p) (load_index p)
  load_index-IsSound =
      Keeps-bind (io p p.create_entries_dir) (λ _. read_index p >>= parse_then)
        (create_dir-IsSound p fs faithful)
        λ _. record {
          at = λ s h. set_parsed s.0 s.1 (parse_index p (read index_file s.1)) h.disk h;
        }
    where
      parse_then : Result Fault Text → Exec (State p) (Unit {0})
      parse_then found = do
        snapshot ← lift (faulty (parse_index p found))
        set_index p (some snapshot.entries)

  pub ensure_loaded-IsSound : Keeps (IsSound p) (ensure_loaded p)
  unfolding ensure_loaded
  ensure_loaded-IsSound = record {
    at = λ s h. elim (Option-cases s.0.index) [
      | inr (ix, loaded) ↦ rw (loaded, ensure_loaded) h
      | inl missing ↦ rw (missing, ensure_loaded) (load_index-IsSound.at s h)
    ];
  }

  pub next_tick-IsSound : (now : Now) → Keeps (IsSound p) (next_tick p now)
  unfolding next_tick
  next_tick-IsSound now = record { at = λ s h. record { memory = h.memory; disk = h.disk } }

  remove_files-IsSound :
      (entries : List (String × Text)) → Keeps (IsSound p) (remove_entry_files p entries)
  unfolding remove_entry_files
  remove_files-IsSound [] = Keeps-pure tt
  remove_files-IsSound (e ∷ entries) =
      Keeps-bind _ _ (remove_entry-IsSound p fs faithful e.1) (λ _. remove_files-IsSound entries)

  finish_delete-IsSound : (m : Option CacheEntryMeta) → Keeps (IsSound p) (finish_delete p m)
  finish_delete-IsSound none = Keeps-pure tt
  finish_delete-IsSound (some meta) =
      with_index-Keeps (λ ix. (ix, snapshot_of ix))
        (λ t. write_index p t >> quietly p (p.remove_file (entry_file meta.hash))) (λ ix g. g)
        λ ix g.
          Keeps-bind _ _ (write_index-IsSound p fs faithful (snapshot_of ix) g)
            λ _. remove_entry-IsSound p fs faithful meta.hash

  -- `delete` keeps the invariant.
  pub delete-IsSound : (key : String) → Keeps (IsSound p) (delete p key)
  unfolding delete
  delete-IsSound key = Keeps-bind _ _ (Keeps-lift (validate_key key)) λ _.
      Keeps-bind _ _ ensure_loaded-IsSound λ _.
        with_index-Keeps (λ ix. (remove key ix, lookup key ix)) (finish_delete p)
          (λ ix g. IsGood-remove key_hash key ix g) λ ix g. finish_delete-IsSound (lookup key ix)

  insert_and_evict-IsSound :
      {B : Type 0} (key : String) (meta : CacheEntryMeta)
      (k : List (String × Text) × IndexSnapshot → Exec (State p) B)
      → meta.hash ≡ key_hash key
      → ((e : List (String × Text)) (ix : Index)
          → IsGood key_hash ix
          → Keeps (IsSound p) (k (e, snapshot_of ix)))
      → Keeps (IsSound p) (insert_and_evict p key meta >>= k)
  insert_and_evict-IsSound key meta k e next = record {
    at = λ s h.
        let good = λ (ix : Index) (g : IsGood key_hash ix).
          IsGood-evictions key_hash s.0.policy key (insert key meta ix)
            (IsGood-insert key_hash key meta ix e g) in
        (with_index-Keeps
            (λ ix.
              let (ix', evictions) = collect_evictions s.0.policy (insert key meta ix) key in
              (ix', (evictions, snapshot_of ix')))
            k good (λ ix g. next _ _ (good ix g))).at
          s h;
  }

  pub set-IsSound :
      (now : Now) (key : String) (value : CacheValue Json) (ttl : Option Duration)
      → Keeps (IsSound p) (set p now key value ttl)
  unfolding set
  set-IsSound now key value ttl =
      Keeps-bind _ _ (Keeps-lift (guard (not (ttl == some 0)) zero_ttl)) λ _.
        Keeps-bind _ _ (Keeps-lift (validate_key key)) λ _.
          Keeps-bind _ _ ensure_loaded-IsSound λ _.
            Keeps-bind _ _ (Keeps-lift (faulty (payload_of p value))) λ payload.
              Keeps-bind _ _ (write_entry-IsSound p fs faithful key payload) λ _.
                Keeps-bind _ _ (Keeps-gets (λ s. s.0.policy)) λ policy.
                  Keeps-bind _ _ (next_tick-IsSound now) λ tick.
                    insert_and_evict-IsSound key
                      (new_meta p now key value payload (or_default ttl policy.default_ttl) tick)
                      (λ r. write_index p r.1 >> remove_entry_files p r.0) refl
                      λ evictions ix g.
                        Keeps-bind _ _ (write_index-IsSound p fs faithful (snapshot_of ix) g)
                          λ _. remove_files-IsSound evictions
