-- ===== src/Metadata/RarLaws.antt =====
-- Reading an entry of a RAR archive, compared with what the archive holds.
use dion_runtime.Base.{
  ℕ, zero, suc, ◌<◌, ◌≡◌, refl, arith, none, some, List, [], ◌∷◌, Text, length, if◌then◌else◌,
  Result, ok, err, Bool-cases, inl, inr,
}
use dion_runtime.Metadata.Rar.{
  MetaError, no_archive_entry, RarHeader, Unrar, is_file_at, at_header, read_from, rar_read,
}

-- What the cursor at the first header of `h ∷ rest` does.
pub record IsAtHeader (u : Unrar) (contents : u.BeforeHeader → List (RarHeader × Text))
    (h : RarHeader) (bytes : Text) (rest : List (RarHeader × Text)) (before : u.BeforeHeader)
    : Type 0 where
  pub cursor : u.AtHeader
  pub next : u.BeforeHeader
  pub reads_header : u.read_header before ≡ ok (some cursor)
  pub has_header : u.entry cursor ≡ h
  pub reads_bytes : u.read cursor ≡ ok bytes
  pub skips : u.skip cursor ≡ ok next
  pub leaves : contents next ≡ rest

-- An archive that is not damaged: a cursor stands before a list of headers, each with its bytes.
pub record IsIntact (u : Unrar) : Type 0 where
  pub contents : u.BeforeHeader → List (RarHeader × Text)
  pub at_end : (before : u.BeforeHeader) → contents before ≡ [] → u.read_header before ≡ ok none
  pub at_entry :
      (before : u.BeforeHeader) (h : RarHeader) (bytes : Text) (rest : List (RarHeader × Text))
      → contents before ≡ (h, bytes) ∷ rest
      → IsAtHeader u contents h bytes rest before

-- The bytes of the first file that a path names.
unfoldable pub file_at : Text → List (RarHeader × Text) → Result MetaError Text
file_at path [] = err (no_archive_entry path)
file_at path ((h, bytes) ∷ rest) = if is_file_at path h then ok bytes else file_at path rest

module _ (u : Unrar) (intact : IsIntact u) where
  open intact use {contents, at_end, at_entry}

  read_from_lem :
      (path : Text) (files : List (RarHeader × Text)) (fuel : ℕ) (before : u.BeforeHeader)
      → contents before ≡ files
      → length files < fuel
      → read_from u fuel path before ≡ file_at path files
  unfolding read_from at_header file_at
  read_from_lem path files zero before h k = absurd (omega arith)
  read_from_lem path [] (suc fuel) before h k = rw (at_end before h) refl
  read_from_lem path ((header, bytes) ∷ rest) (suc fuel) before h k =
      let here = at_entry before header bytes rest h in
      elim (Bool-cases (is_file_at path header)) [
        | inl file ↦ rw (here.reads_header, here.has_header, file, here.reads_bytes) refl
        | inr other ↦
            rw (here.reads_header, here.has_header, other, here.skips)
              (read_from_lem path rest fuel here.next here.leaves (omega arith))
      ]

  -- With an archive that is not damaged and more fuel than headers from the cursor on, reading a
  -- path from a RAR archive gives the bytes of the first file that the path names, and an error
  -- where none does.
  pub rar_read_lem :
      (path : Text) (staged : u.Staged) (before : u.BeforeHeader) (fuel : ℕ)
      → u.open_for_processing staged ≡ ok before
      → length (contents before) < fuel
      → rar_read u fuel path staged ≡ file_at path (contents before)
  unfolding rar_read
  rar_read_lem path staged before fuel h k =
      rw h (read_from_lem path (contents before) fuel before refl k)
