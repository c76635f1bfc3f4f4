-- ===== src/Metadata/Rar.antt =====
-- `RarArchive` of rust/dion_extension/src/metadata.rs: the unrar library, which is a parameter, has
-- no random access, so that an entry is looked for header by header.
use dion_runtime.Base.{
  ℕ, zero, suc, Bool, not, ◌&&◌, Option, none, some, List, [], ◌∷◌, map, Text, ◌==◌, nat_eq,
  list_eq, if◌then◌else◌, Result, ok, err, ◌>>=◌,
}
use dion_runtime.Client.{Fault}
use dion_runtime.Metadata.Types.{ArchiveEntry}

pub data MetaError : Type 0 where
  not_recognized no_entries parse_failed io_failed out_of_fuel : MetaError
  rar_open_failed rar_header_failed rar_extract_failed rar_skip_failed : Fault → MetaError
  no_archive_entry : Text → MetaError

pub record RarHeader : Type 0 where
  pub filename : Text
  pub unpacked_size : ℕ
  pub is_directory : Bool

-- The staged archives, the cursors before a header and those at a header.
pub record Unrar : Type 1 where
  pub Staged : Type 0
  pub BeforeHeader : Type 0
  pub AtHeader : Type 0
  pub stage : Text → Result Fault Staged
  pub open_for_listing : Staged → Result Fault (List (Result Fault RarHeader))
  pub open_for_processing : Staged → Result Fault BeforeHeader
  pub read_header : BeforeHeader → Result Fault (Option AtHeader)
  pub entry : AtHeader → RarHeader
  pub read : AtHeader → Result Fault Text
  pub skip : AtHeader → Result Fault BeforeHeader

-- `map_err`
abbrev pub map_err : {A : Type 0} → (Fault → MetaError) → Result Fault A → Result MetaError A
map_err f (ok a) = ok a
map_err f (err e) = err (f e)

-- Backslashes become slashes.
abbrev pub rar_entry_name : Text → Text
rar_entry_name path = map (λ (c : ℕ). if c == b'\\' then b'/' else c) path

abbrev pub entry_of : RarHeader → ArchiveEntry
entry_of h = record {
  path = rar_entry_name h.filename;
  size = some h.unpacked_size;
  is_dir = h.is_directory;
}

unfoldable pub entries_of : List (Result Fault RarHeader) → Result MetaError (List ArchiveEntry)
entries_of [] = ok []
entries_of (ok h ∷ hs) = entries_of hs >>= λ entries. ok (entry_of h ∷ entries)
entries_of (err e ∷ hs) = err (rar_header_failed e)

-- Whether an entry is the file that a path names.
abbrev pub is_file_at : Text → RarHeader → Bool
is_file_at path h = not h.is_directory && rar_entry_name h.filename == path

module _ (u : Unrar) where
  open u use {
    Staged, BeforeHeader, AtHeader, open_for_listing, open_for_processing, read_header, entry, read,
    skip,
  }

  unfoldable pub rar_list : Staged → Result MetaError (List ArchiveEntry)
  unfolding entries_of
  rar_list staged = map_err rar_open_failed (open_for_listing staged) >>= entries_of

  -- At a header: the file is read, or the archive goes on behind it.
  unfoldable pub at_header :
      (BeforeHeader → Result MetaError Text) → Text → Option AtHeader → Result MetaError Text
  at_header next path none = err (no_archive_entry path)
  at_header next path (some o) =
      if is_file_at path (entry o)
      then map_err rar_extract_failed (read o)
      else map_err rar_skip_failed (skip o) >>= next

  -- The loop over the headers; it takes one of the fuel for each.
  unfoldable pub read_from : ℕ → Text → BeforeHeader → Result MetaError Text
  unfolding at_header
  read_from zero path before = err out_of_fuel
  read_from (suc fuel) path before =
      map_err rar_header_failed (read_header before) >>= at_header (read_from fuel path) path

  unfoldable pub rar_read : ℕ → Text → Staged → Result MetaError Text
  unfolding read_from
  rar_read fuel path staged =
      map_err rar_open_failed (open_for_processing staged) >>= read_from fuel path
