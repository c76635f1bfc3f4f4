-- ===== src/Metadata/Inspect.antt =====
-- `inspect` and `MetadataArchive` of rust/dion_extension/src/metadata.rs, over the libraries that
-- open the formats.
use dion_runtime.Base.{ℕ, false, Option, none, some, List, map, Text, Result, ok, err, ok_or, ◌>>=◌}
use dion_runtime.Client.{Fault}
use dion_runtime.Metadata.Types.{FormatKind, ArchiveEntry, InspectOutput, archive}
use dion_runtime.Metadata.Detect.{detect}
use dion_runtime.Metadata.Rar.{
  MetaError, not_recognized, no_entries, parse_failed, io_failed, no_archive_entry, Unrar, map_err,
  rar_list, rar_read,
}
use dion_runtime.Metadata.Documents.{
  EpubFile, ManifestEntry, PdfFile, Mp4Tag, TaggedFile, filter_map, epub_metadata, pdf_metadata,
  mp4_metadata, audio_metadata,
}

-- An archive of the zip crate: its entries by index, where they can be read.
pub record ZipFile : Type 0 where
  pub by_index : List (Option ArchiveEntry)
  pub by_name : Text → Option (Result Fault Text)

-- The libraries that open a format.
pub record Parsers : Type 1 where
  pub Epub : Type 0
  pub unrar : Unrar
  pub zip_text : Text → Text → Option Text
  pub epub_read : Text → Result Fault Epub
  pub epub_file : Epub → EpubFile
  pub epub_resource : Epub → Text → Result Fault Text
  pub zip_open : Text → Result Fault ZipFile
  pub pdf_load : Text → Result Fault PdfFile
  pub mp4_read : Text → Result Fault Mp4Tag
  pub audio_probe : Text → Result Fault TaggedFile

abbrev parse_error : Fault → MetaError
parse_error e = parse_failed

abbrev io_error : Fault → MetaError
io_error e = io_failed

unfoldable pub zip_entries : ZipFile → List ArchiveEntry
unfolding filter_map
zip_entries z = filter_map (λ (e : Option ArchiveEntry). e) z.by_index

abbrev pub listed : List ArchiveEntry → InspectOutput
listed entries = record { metadata = archive (record { entries = entries }); artwork = none }

module _ (p : Parsers) where
  open p use {
    Epub, unrar, zip_text, epub_read, epub_file, epub_resource, zip_open, pdf_load, mp4_read,
    audio_probe,
  }

  pub data MetadataArchive : Type 0 where
    epub : Epub → MetadataArchive
    zip : ZipFile → MetadataArchive
    rar : unrar.Staged → MetadataArchive

  abbrev pub inspect_kind : Text → FormatKind → Result MetaError InspectOutput
  inspect_kind bytes FormatKind.epub =
      map_err parse_error (epub_read bytes) >>= λ e. ok (epub_metadata (epub_file e))
  inspect_kind bytes FormatKind.zip =
      map_err parse_error (zip_open bytes) >>= λ z. ok (listed (zip_entries z))
  inspect_kind bytes FormatKind.rar = map_err io_error (unrar.stage bytes) >>= λ staged.
      rar_list unrar staged >>= λ entries. ok (listed entries)
  inspect_kind bytes FormatKind.pdf =
      map_err parse_error (pdf_load bytes) >>= λ f. ok (pdf_metadata f)
  inspect_kind bytes FormatKind.mp4 =
      map_err parse_error (mp4_read bytes) >>= λ t. ok (mp4_metadata t)
  inspect_kind bytes FormatKind.audio =
      map_err parse_error (audio_probe bytes) >>= λ t. ok (audio_metadata t)

  unfoldable pub inspect : Text → Option Text → Result MetaError InspectOutput
  unfolding detect epub_metadata zip_entries rar_list pdf_metadata mp4_metadata audio_metadata
  inspect bytes hint = ok_or (detect zip_text bytes hint) not_recognized >>= inspect_kind bytes

  abbrev pub open_kind : Text → FormatKind → Result MetaError MetadataArchive
  open_kind bytes FormatKind.epub = map_err parse_error (epub_read bytes) >>= λ e. ok (epub e)
  open_kind bytes FormatKind.zip = map_err parse_error (zip_open bytes) >>= λ z. ok (zip z)
  open_kind bytes FormatKind.rar =
      map_err io_error (unrar.stage bytes) >>= λ staged. ok (rar staged)
  open_kind bytes FormatKind.pdf = err no_entries
  open_kind bytes FormatKind.mp4 = err no_entries
  open_kind bytes FormatKind.audio = err no_entries

  unfoldable pub open_archive : Text → Option Text → Result MetaError MetadataArchive
  unfolding detect
  open_archive bytes hint = ok_or (detect zip_text bytes hint) not_recognized >>= open_kind bytes

  unfoldable pub inspect_archive : MetadataArchive → Result MetaError InspectOutput
  unfolding epub_metadata zip_entries rar_list
  inspect_archive (epub e) = ok (epub_metadata (epub_file e))
  inspect_archive (zip z) = ok (listed (zip_entries z))
  inspect_archive (rar staged) = rar_list unrar staged >>= λ entries. ok (listed entries)

  unfoldable pub archive_entries : MetadataArchive → Result MetaError (List ArchiveEntry)
  unfolding zip_entries rar_list
  archive_entries (epub e) = ok (
      map (λ (m : ManifestEntry). record { path = m.href_path; size = none; is_dir = false })
        (epub_file e).manifest)
  archive_entries (zip z) = ok (zip_entries z)
  archive_entries (rar staged) = rar_list unrar staged

  abbrev zip_bytes : Text → Option (Result Fault Text) → Result MetaError Text
  zip_bytes path none = err (no_archive_entry path)
  zip_bytes path (some r) = map_err io_error r

  unfoldable pub read_archive : ℕ → Text → MetadataArchive → Result MetaError Text
  unfolding rar_read
  read_archive fuel path (epub e) = map_err parse_error (epub_resource e path)
  read_archive fuel path (zip z) = zip_bytes path (z.by_name path)
  read_archive fuel path (rar staged) = rar_read unrar fuel path staged
