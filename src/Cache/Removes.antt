-- ===== src/Cache/Removes.antt =====
-- What `delete` of rust/dion_extension/src/cache.rs leaves in the index.
use dion_runtime.Base.{◌≡◌, refl, Option, none, some, String, string_eq, inl, inr, ok, Result-cases}
use dion_runtime.Base.Maps.{lookup, remove, lookup-remove_self}
use dion_runtime.Cache.Types.{
  CacheEntryMeta, Index, Platform, snapshot_of, entry_file, IndexSnapshot,
}
use dion_runtime.Cache.Exec.{◌>>=◌, ◌>>◌}
use dion_runtime.Cache.Triples.{
  Ensures, Ensures-bind, Ensures-lift, Ensures-Keeps, Keeps, Keeps-bind,
}
use dion_runtime.Cache.Handle.{
  State, validate_key, ensure_loaded, write_index, quietly, with_index, index_or_empty,
}
use dion_runtime.Cache.Ops.{delete, finish_delete}

module _ (p : Platform) where
  open p use {Disk, Json, key_hash}

  -- The index is loaded and has no entry for the key.
  pub record Absent (key : String) (s : State p) : Type 0 where
    pub index : Index
    pub loaded : s.0.index ≡ some index
    pub gone : lookup key index ≡ none

  write_index-Absent :
      (key : String) (snapshot : IndexSnapshot) → Keeps (Absent key) (write_index p snapshot)
  unfolding write_index
  write_index-Absent key snapshot = record {
    at = λ s a. elim (Result-cases (p.index_codec.to_string snapshot)) [
      | inr (e, failed) ↦ rw failed a
      | inl (text, e) ↦ rw e (record { index = a.index; loaded = a.loaded; gone = a.gone })
    ];
  }

  finish_delete-Absent :
      (key : String) (m : Option CacheEntryMeta) → Keeps (Absent key) (finish_delete p m)
  finish_delete-Absent key none = record { at = λ s a. a }
  finish_delete-Absent key (some meta) =
      Keeps-bind (with_index p (λ ix. (ix, snapshot_of ix)))
        (λ t. write_index p t >> quietly p (p.remove_file (entry_file meta.hash)))
        (record { at = λ s a. record { index = a.index; loaded = rw a.loaded; gone = a.gone } })
        λ t.
          Keeps-bind (write_index p t) _ (write_index-Absent key t)
            λ _. record { at = λ s a. record { index = a.index; loaded = a.loaded; gone = a.gone } }

  -- Once the key has passed its test and the index is loaded, `delete` removes the entry from the
  -- index, whatever fails after that.
  pub removed-Absent :
      (key : String) (s : State p)
      → Absent key ((with_index p (λ ix. (remove key ix, lookup key ix)) >>= finish_delete p) s).1
  removed-Absent key s =
      let ix = index_or_empty s.0.index in
      (finish_delete-Absent key (lookup key ix)).at
        (record s.0 { index = some (remove key ix) }, s.1)
        (record { index = remove key ix; loaded = refl; gone = lookup-remove_self key ix })

  pub delete-Absent :
      (key : String) (s : State p)
      → Ensures
          (λ _ s'. (validate_key key ≡ ok tt) × Absent key s')
          (λ _. Unit {0})
          (delete p key s)
  unfolding delete
  delete-Absent key s =
      let tail = with_index p (λ ix. (remove key ix, lookup key ix)) >>= finish_delete p in
      let Q = λ (_ : Unit {0}) (s' : State p). (validate_key key ≡ ok tt) × Absent key s' in
      Ensures-lift Q (validate_key key) (λ _. ensure_loaded p >> tail) s
        λ (_ : Unit {0}) valid.
          Ensures-bind (λ _ _. Unit {0}) Q (λ _. Unit {0}) (ensure_loaded p s) (λ _. tail)
            (Ensures-Keeps (λ _. Unit {0}) (ensure_loaded p s) tt)
            λ _ s1 _.
              Ensures-Keeps (λ s'. (validate_key key ≡ ok tt) × Absent key s') (tail s1)
                (valid, removed-Absent key s1)
