-- ===== src/Cache/Sound.antt =====
-- The invariant of a cache handle and its disk, which every operation of
-- rust/dion_extension/src/cache.rs keeps, also where it fails.
use dion_runtime.Base.{
  ◌≡◌, sym, subst, Option, none, some, [], ◌∷◌, arith, Text, String, string_eq, inl, inr, Result,
  ok, err, Result-cases, ◌∙◌, ok_injective, ap,
}
use dion_runtime.Base.Maps.{
  lookup, insert, remove, IsDistinct, insert-IsDistinct, remove-IsDistinct, lookup-insert,
  lookup-remove,
}
use dion_runtime.Client.{Fault, IsFaithful}
use dion_runtime.Cache.Types.{
  CacheEntryMeta, CachePolicy, Index, IndexSnapshot, index_file, entry_file, Platform,
}
use dion_runtime.Cache.Evict.{collect_evictions}
use dion_runtime.Cache.Evicts.{collect_evictions-Evicts}
use dion_runtime.Cache.Disk.{
  IsFileSystem, write_atomic_lem, index-ne-tmp, entry-ne-tmp, entry-ne-index,
}
use dion_runtime.Cache.Triples.{Keeps}
use dion_runtime.Cache.Handle.{
  CacheInner, State, io, quietly, write_atomic, write_index, parse_index, entry_path,
}

-- No key stands twice, and each entry has the hash of its key.
pub record IsGood (key_hash : String → Text) (ix : Index) : Type 0 where
  pub distinct : IsDistinct ix
  pub hashed : (q : String) (m : CacheEntryMeta) → lookup q ix ≡ some m → m.hash ≡ key_hash q

module _ (key_hash : String → Text) where
  pub IsGood-nil : IsGood key_hash []
  unfolding lookup
  IsGood-nil = record { distinct = tt; hashed = λ q m h. absurd (cc h) }

  pub IsGood-insert :
      (k : String) (m : CacheEntryMeta) (ix : Index)
      → m.hash ≡ key_hash k
      → IsGood key_hash ix
      → IsGood key_hash (insert k m ix)
  IsGood-insert k m ix e g = record {
    distinct = insert-IsDistinct k m ix g.distinct;
    hashed = λ q n h. ground (arith, lookup-insert k q m ix, string_eq.beq_iff k q, g.hashed q n);
  }

  pub IsGood-remove : (k : String) (ix : Index) → IsGood key_hash ix → IsGood key_hash (remove k ix)
  IsGood-remove k ix g = record {
    distinct = remove-IsDistinct k ix g.distinct;
    hashed = λ q n h. ground (arith, lookup-remove k q ix, g.hashed q n);
  }

  pub IsGood-evictions :
      (policy : CachePolicy) (keep : String) (ix : Index)
      → IsGood key_hash ix
      → IsGood key_hash (collect_evictions policy ix keep).0
  IsGood-evictions policy keep ix g =
      let r = collect_evictions-Evicts policy keep ix g.distinct in
      record { distinct = r.distinct; hashed = λ q m h. g.hashed q m (r.shrinks.same q m h) }

module _ (p : Platform) where
  open p use {Disk, key_hash, read}

  -- Whatever the index file parses to is good.
  abbrev pub Stored : Result Fault Text → Type 0
  Stored found =
      (snapshot : IndexSnapshot)
      → parse_index p found ≡ ok snapshot
      → IsGood key_hash snapshot.entries

  abbrev pub Loaded : Option Index → Type 0
  Loaded none = Unit
  Loaded (some ix) = IsGood key_hash ix

  pub record IsSound (s : State p) : Type 0 where
    pub memory : Loaded s.0.index
    pub disk : Stored (read index_file s.1)

module _ (p : Platform) (fs : IsFileSystem p) (faithful : IsFaithful p.index_codec) where
  open p use {Disk, key_hash, read, remove_file}

  IsSound-frame :
      (c : CacheInner) (d d' : Disk)
      → read index_file d' ≡ read index_file d
      → IsSound p (c, d)
      → IsSound p (c, d')
  IsSound-frame c d d' e s = record { memory = s.memory; disk = subst (Stored p) (sym e) s.disk }

  -- A step of the disk that leaves the index file alone.
  io-IsSound :
      {A : Type 0} (f : Disk → Result Fault A × Disk)
      → ((d : Disk) → read index_file (f d).1 ≡ read index_file d)
      → Keeps (IsSound p) (io p f)
  io-IsSound f e = record { at = λ s h. IsSound-frame s.0 s.1 (f s.1).1 (e s.1) h }

  quietly-IsSound :
      (f : Disk → Result Fault (Unit {0}) × Disk)
      → ((d : Disk) → read index_file (f d).1 ≡ read index_file d)
      → Keeps (IsSound p) (quietly p f)
  quietly-IsSound f e = record { at = λ s h. IsSound-frame s.0 s.1 (f s.1).1 (e s.1) h }

  pub write_entry-IsSound :
      (key : String) (bytes : Text)
      → Keeps (IsSound p) (io p (write_atomic p (entry_path p key) bytes))
  write_entry-IsSound key bytes =
      let h = key_hash key in
      io-IsSound (write_atomic p (entry_path p key) bytes) λ d.
        (write_atomic_lem p fs (entry_file h) bytes d (entry-ne-tmp h)).frame index_file
          (λ e. entry-ne-index h (sym e)) (λ e. cc)

  pub remove_entry-IsSound : (h : Text) → Keeps (IsSound p) (quietly p (remove_file (entry_file h)))
  remove_entry-IsSound h =
      quietly-IsSound (remove_file (entry_file h))
        λ d. fs.remove_frame (entry_file h) index_file d (λ e. entry-ne-index h (sym e))

  pub create_dir-IsSound : Keeps (IsSound p) (io p p.create_entries_dir)
  create_dir-IsSound = io-IsSound p.create_entries_dir (fs.create_frame index_file)

  pub Stored-err : (e : Fault) → Stored p (err e)
  unfolding parse_index
  Stored-err e = λ snapshot h.
      subst (IsGood key_hash) (ap (λ s. s.entries) (ok_injective h)) (IsGood-nil key_hash)

  Stored-snapshot :
      (snapshot : IndexSnapshot) (text : Text)
      → p.index_codec.to_string snapshot ≡ ok text
      → IsGood key_hash snapshot.entries
      → Stored p (ok text)
  unfolding parse_index
  Stored-snapshot snapshot [] e g =
      λ s h. subst (IsGood key_hash) (ap (λ s. s.entries) (ok_injective h)) (IsGood-nil key_hash)
  Stored-snapshot snapshot (b ∷ text) e g = λ s h.
      subst (λ t. IsGood key_hash t.entries)
        (ok_injective (sym (faithful.round_trip snapshot (b ∷ text) e) ∙ h)) g

  pub write_index-IsSound :
      (snapshot : IndexSnapshot)
      → IsGood key_hash snapshot.entries
      → Keeps (IsSound p) (write_index p snapshot)
  unfolding write_index
  write_index-IsSound snapshot g = record {
    at = λ s h. elim (Result-cases (p.index_codec.to_string snapshot)) [
      | inr (e, failed) ↦ rw failed h
      | inl (text, e) ↦
          let stored = Stored-snapshot snapshot text e g in
          let w = write_atomic_lem p fs index_file text s.1 index-ne-tmp in
          rw e (record {
            memory = h.memory;
            disk = elim w.torn [
              | inl same ↦ subst (Stored p) (sym same) h.disk
              | inr (inl (f, gone)) ↦ subst (Stored p) (sym gone) (Stored-err f)
              | inr (inr new) ↦ subst (Stored p) (sym new) stored
            ];
          })
    ];
  }
