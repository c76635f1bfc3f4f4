-- ===== src/Cache/Disk.antt =====
-- What rust/dion_extension/src/cache.rs relies on of the file system (tokio::fs), and what its
-- `write_atomic` makes of it.
use dion_runtime.Base.{
  ◌≡◌, ◌≢◌, sym, arith, Text, ◌⊎◌, inl, inr, Result, ok, err, Result-cases, ◌∙◌, codes, ap,
}
use dion_runtime.Client.{Fault}
use dion_runtime.Cache.Types.{
  CachePath, FileName, in_dir, in_entries, with_extension, index_file, entry_file, Platform,
}
use dion_runtime.Cache.Handle.{write_atomic}

-- A call changes only the files that it names. A write or a rename that succeeds has its effect, a
-- rename that fails has none, and a file that is removed is gone or what it was.
pub record IsFileSystem (p : Platform) : Type 0 where
  pub write_frame :
      (path q : CachePath) (b : Text) (d : p.Disk)
      → q ≢ path
      → p.read q (p.write path b d).1 ≡ p.read q d
  pub read-write :
      (path : CachePath) (b : Text) (d : p.Disk)
      → (p.write path b d).0 ≡ ok tt
      → p.read path (p.write path b d).1 ≡ ok b
  pub rename_frame :
      (a b q : CachePath) (d : p.Disk) → q ≢ a → q ≢ b → p.read q (p.rename a b d).1 ≡ p.read q d
  pub read-rename :
      (a b : CachePath) (d : p.Disk)
      → (p.rename a b d).0 ≡ ok tt
      → p.read b (p.rename a b d).1 ≡ p.read a d
  pub rename_failed :
      (a b q : CachePath) (d : p.Disk) (e : Fault)
      → (p.rename a b d).0 ≡ err e
      → p.read q (p.rename a b d).1 ≡ p.read q d
  pub remove_frame :
      (path q : CachePath) (d : p.Disk) → q ≢ path → p.read q (p.remove_file path d).1 ≡ p.read q d
  pub read-remove :
      (path : CachePath) (d : p.Disk)
      → (p.read path (p.remove_file path d).1 ≡ p.read path d)
        ⊎ ((e : Fault) × (p.read path (p.remove_file path d).1 ≡ err e))
  pub create_frame : (q : CachePath) (d : p.Disk) → p.read q (p.create_entries_dir d).1 ≡ p.read q d
  pub read-remove_dir :
      (q : CachePath) (d : p.Disk)
      → (p.read q (p.remove_cache_dir d).1 ≡ p.read q d)
        ⊎ ((e : Fault) × (p.read q (p.remove_cache_dir d).1 ≡ err e))

-- What an atomic write of `bytes` may leave: no other file but the one beside it changes; if it
-- succeeds the file has the bytes; if it fails the file is what it was, is gone, or has the bytes.
pub record WritesAtomically (p : Platform) (path tmp : CachePath) (bytes : Text) (d : p.Disk)
    (r : Result Fault (Unit {0}) × p.Disk) : Type 0 where
  pub frame : (q : CachePath) → q ≢ path → q ≢ tmp → p.read q r.1 ≡ p.read q d
  pub done : r.0 ≡ ok tt → p.read path r.1 ≡ ok bytes
  pub torn :
      (p.read path r.1 ≡ p.read path d)
      ⊎ ((e : Fault) × (p.read path r.1 ≡ err e))
      ⊎ (p.read path r.1 ≡ ok bytes)

module _ (p : Platform) (fs : IsFileSystem p) where
  open p use {Disk, read, write, rename, remove_file}

  -- The second rename, after the file was removed.
  second_rename :
      (path tmp : CachePath) (bytes : Text) (d d2 : Disk)
      → path ≢ tmp
      → ((q : CachePath) → q ≢ tmp → read q d2 ≡ read q d)
      → read tmp d2 ≡ ok bytes
      → WritesAtomically p path tmp bytes d (rename tmp path (remove_file path d2).1)
  second_rename path tmp bytes d d2 apart same has =
      let d3 = (remove_file path d2).1 in
      let has3 : read tmp d3 ≡ ok bytes = fs.remove_frame path tmp d2 (λ e. apart (sym e)) ∙ has in
      record {
        frame = λ q ne ne'.
            fs.rename_frame tmp path q d3 ne' ne ∙ fs.remove_frame path q d2 ne ∙ same q ne';
        done = λ e. fs.read-rename tmp path d3 e ∙ has3;
        torn = elim (Result-cases (rename tmp path d3).0) [
          | inl (a, e) ↦ inr (inr (fs.read-rename tmp path d3 e ∙ has3))
          | inr (c, e) ↦
              let kept = fs.rename_failed tmp path path d3 c e in
              elim (fs.read-remove path d2) [
                | inl there ↦ inl (kept ∙ there ∙ same path apart)
                | inr (f, gone) ↦ inr (inl (f, kept ∙ gone))
              ]
        ];
      }

  -- `write_atomic` writes atomically, on every branch.
  pub write_atomic_lem :
      (path : CachePath) (bytes : Text) (d : Disk)
      → path ≢ with_extension path (codes "tmp")
      → WritesAtomically p path
          (with_extension path (codes "tmp"))
          bytes
          d
          (write_atomic p path bytes d)
  unfolding write_atomic
  write_atomic_lem path bytes d apart =
      let tmp = with_extension path (codes "tmp") in
      let d1 = (write tmp bytes d).1 in
      let same : (q : CachePath) → q ≢ tmp → read q d1 ≡ read q d =
        λ q ne. fs.write_frame tmp q bytes d ne in
      elim (Result-cases (write tmp bytes d).0) [
        | inr (c, failed) ↦ rw failed (record {
          frame = λ q ne ne'. same q ne';
          done = λ e. absurd (cc e);
          torn = inl (same path apart);
        })
        | inl (a, wrote) ↦
            let has = fs.read-write tmp bytes d wrote in
            elim (Result-cases (rename tmp path d1).0) [
              | inl (b, moved) ↦
                  rw (wrote, moved)
                    (record {
                      frame = λ q ne ne'. fs.rename_frame tmp path q d1 ne' ne ∙ same q ne';
                      done = λ e. fs.read-rename tmp path d1 moved ∙ has;
                      torn = inr (inr (fs.read-rename tmp path d1 moved ∙ has));
                    })
              | inr (c, stuck) ↦
                  let d2 = (rename tmp path d1).1 in
                  let same2 : (q : CachePath) → q ≢ tmp → read q d2 ≡ read q d =
                    λ q ne. fs.rename_failed tmp path q d1 c stuck ∙ same q ne in
                  rw (wrote, stuck)
                    (second_rename path tmp bytes d d2 apart same2
                      (fs.rename_failed tmp path tmp d1 c stuck ∙ has))
            ]
      ]

abbrev file_name : CachePath → FileName
file_name (in_dir f) = f
file_name (in_entries f) = f

-- The files of a cache have names of their own.
pub index-ne-tmp : index_file ≢ with_extension index_file (codes "tmp")
index-ne-tmp = λ e. ground (arith, ap (λ q. (file_name q).extension) e)

pub entry-ne-tmp : (h : Text) → entry_file h ≢ with_extension (entry_file h) (codes "tmp")
entry-ne-tmp h = λ e. ground (arith, ap (λ q. (file_name q).extension) e)

pub entry-ne-index : (h : Text) → entry_file h ≢ index_file
entry-ne-index h = λ e. cc

pub entry-ne-index_tmp : (h : Text) → entry_file h ≢ with_extension index_file (codes "tmp")
entry-ne-index_tmp h = λ e. cc

pub entry-ne : (h k : Text) → h ≢ k → entry_file h ≢ entry_file k
entry-ne h k apart = λ e. apart (ap (λ q. (file_name q).stem) e)
