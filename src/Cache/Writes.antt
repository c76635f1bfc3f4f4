-- ===== src/Cache/Writes.antt =====
-- The last steps of a `set` in rust/dion_extension/src/cache.rs keep what it wrote.
use dion_runtime.Base.{
  ℕ, ◌≡◌, ◌≢◌, refl, sym, Option, some, List, [], ◌∷◌, All, Text, String, inl, inr, ok,
  Result-cases, string_eq, option_eq, nat_eq, ◌∙◌,
}
use dion_runtime.Base.Maps.{lookup, insert, lookup-insert_self}
use dion_runtime.Client.{IsFaithful}
use dion_runtime.Cache.Types.{
  CacheEntryMeta, CacheValue, Duration, Index, IndexSnapshot, Now, Platform, snapshot_of,
  entry_file, index_file,
}
use dion_runtime.Cache.Evict.{collect_evictions}
use dion_runtime.Cache.Evicts.{collect_evictions-Evicts, MeetsEntries}
use dion_runtime.Cache.Evicted.{collect_evictions-Each}
use dion_runtime.Cache.Disk.{
  IsFileSystem, write_atomic_lem, entry-ne-index, entry-ne-index_tmp, entry-ne, index-ne-tmp,
}
use dion_runtime.Cache.Exec.{◌>>=◌, ◌>>◌}
use dion_runtime.Cache.Triples.{Keeps, Keeps-bind}
use dion_runtime.Cache.Handle.{
  State, entry_path, quietly, write_index, remove_entry_files, index_or_empty,
}
use dion_runtime.Cache.Ops.{new_meta, insert_and_evict, payload_of}
use dion_runtime.Cache.Sound.{IsGood-insert, IsSound}
use dion_runtime.Cache.Keeps.{or_empty-IsGood}

-- Distinct keys have distinct hashes.
abbrev pub IsCollisionFree : (String → Text) → Type 0
IsCollisionFree key_hash = (j k : String) → key_hash j ≡ key_hash k → j ≡ k

module _ (p : Platform) where
  open p use {Disk, Json, key_hash, read}

  -- The index has the entry, and its file has the payload.
  pub record Holding (key : String) (meta : CacheEntryMeta) (payload : Text) (s : State p)
      : Type 0 where
    pub index : Index
    pub loaded : s.0.index ≡ some index
    pub found : lookup key index ≡ some meta
    pub limited : MeetsEntries s.0.policy.max_entries index
    pub file : read (entry_path p key) s.1 ≡ ok payload

  -- What a `set` stored, and when it was stored.
  pub record Stores (now : Now) (key : String) (value : CacheValue Json) (ttl : Option Duration)
      (s : State p) : Type 0 where
    pub payload : Text
    pub tick : ℕ
    pub encoded : payload_of p value ≡ ok payload
    pub holding : Holding key (new_meta p now key value payload ttl tick) payload s

module _ (p : Platform) (fs : IsFileSystem p) (faithful : IsFaithful p.index_codec) where
  open p use {Disk, Json, key_hash, read, remove_file}

  module _ (key : String) (meta : CacheEntryMeta) (payload : Text) where
    abbrev H : State p → Type 0
    H = Holding p key meta payload

    write_index-Holding : (snapshot : IndexSnapshot) → Keeps H (write_index p snapshot)
    unfolding write_index
    write_index-Holding snapshot = record {
      at = λ s h. elim (Result-cases (p.index_codec.to_string snapshot)) [
        | inr (e, failed) ↦ rw failed h
        | inl (text, e) ↦
            let w = write_atomic_lem p fs index_file text s.1 index-ne-tmp in
            rw e (record {
              index = h.index;
              loaded = h.loaded;
              found = h.found;
              limited = h.limited;
              file =
                  w.frame (entry_path p key) (entry-ne-index (key_hash key))
                    (entry-ne-index_tmp (key_hash key))
                  ∙ h.file;
            })
      ];
    }

    remove_files-Holding :
        (entries : List (String × Text))
        → All (λ e. e.1 ≢ key_hash key) entries
        → Keeps H (remove_entry_files p entries)
    unfolding remove_entry_files
    remove_files-Holding [] all = record { at = λ s h. h }
    remove_files-Holding (e ∷ entries) (other, all) =
        Keeps-bind (quietly p (remove_file (entry_file e.1))) _
          (record {
            at = λ s h. record {
              index = h.index;
              loaded = h.loaded;
              found = h.found;
              limited = h.limited;
              file =
                  fs.remove_frame (entry_file e.1) (entry_path p key) s.1
                    (entry-ne (key_hash key) e.1 (λ x. other (sym x)))
                  ∙ h.file;
            };
          })
          (λ _. remove_files-Holding entries all)

    -- After the entry's file is written, the entry is there, whatever fails from then on.
    pub insert-Holding :
        (s : State p)
        → IsCollisionFree key_hash
        → meta.hash ≡ key_hash key
        → IsSound p s
        → read (entry_path p key) s.1 ≡ ok payload
        → H
            ((insert_and_evict p key meta >>= λ r. write_index p r.1 >> remove_entry_files p r.0)
              s).1
    insert-Holding s free e sound file =
        let ix = insert key meta (index_or_empty s.0.index) in
        let good =
          IsGood-insert key_hash key meta _ e
            (or_empty-IsGood p fs faithful s.0.index sound.memory) in
        let r = collect_evictions s.0.policy ix key in
        let evicts = collect_evictions-Evicts s.0.policy key ix good.distinct in
        let apart =
          collect_evictions-Each (λ q h. h ≢ key_hash key) key s.0.policy ix good.distinct
            (λ q m other at same. other (free q key (sym (good.hashed q m at) ∙ same))) in
        (Keeps-bind _ _ (write_index-Holding (snapshot_of r.0))
            (λ _. remove_files-Holding r.1 apart)).at
          (record s.0 { index = some r.0 }, s.1)
          (record {
            index = r.0;
            loaded = refl;
            found = evicts.shrinks.kept ∙ lookup-insert_self key meta _;
            limited = evicts.entries;
            file = file;
          })
