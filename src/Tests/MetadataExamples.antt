-- ===== src/Tests/MetadataExamples.antt =====
-- The theorems on metadata at concrete inputs: an archive in memory, and a film of two chapters.
use mathlib.Core.List.{Perm}
use dion_runtime.Base.{
  ℕ, ◌≡◌, refl, ap, true, false, none, some, Option, List, [], ◌∷◌, arith, Text, ok, err, codes,
  map,
}
use dion_runtime.Base.Decimal.{digits_of}
use dion_runtime.Client.{io_fault}
use dion_runtime.Metadata.Types.{Chapter}
use dion_runtime.Metadata.Detect.{hint_extension}
use dion_runtime.Metadata.Chapters.{chapter_list, pdf_date_to_iso, later}
use dion_runtime.Metadata.ChapterLaws.{IsTiled, chapter_list-IsTiled}
use dion_runtime.Metadata.Rar.{RarHeader, Unrar, rar_read}
use dion_runtime.Metadata.RarLaws.{IsIntact, file_at, rar_read_lem}
use dion_runtime.Metadata.Inspect.{Parsers, ZipFile, zip, inspect, open_archive, inspect_archive}
use dion_runtime.Metadata.InspectLaws.{inspect-open}

-- The second chapter is given first.
abbrev parts : List (ℕ × Text)
parts = (90_000_500_000, codes "End") ∷ (0, codes " ") ∷ []

chapter_list-IsTiled_example :
    IsTiled (chapter_list parts 120_000_000_000)
    × Perm
        (map (λ (c : Chapter). c.start_ms) (chapter_list parts 120_000_000_000))
        (90_000 ∷ 0 ∷ [])
chapter_list-IsTiled_example =
    chapter_list-IsTiled parts 120_000_000_000 (omega arith, (omega arith, tt))

chapter_list_example :
    chapter_list parts 120_000_000_000
    ≡ record { title = none; start_ms = 0; duration_ms = some 90_000 }
      ∷ record { title = some (codes "End"); start_ms = 90_000; duration_ms = some 29_999 }
      ∷ []
unfolding chapter_list
chapter_list_example = refl

pdf_date_to_iso_example :
    pdf_date_to_iso (record {
      year = 2024;
      month = 3;
      day = 9;
      hour = 7;
      minute = 5;
      second = 0;
      rel = later;
      tz_hour = 2;
      tz_minute = 0;
    })
    ≡ codes "2024-03-09T07:05:00+02:00"
unfolding pdf_date_to_iso digits_of
pdf_date_to_iso_example = refl

hint_extension_examples :
    (hint_extension (codes " a.b/Book.CBZ ") ≡ some (codes "cbz"))
    × (hint_extension (codes "a/.epub") ≡ none)
unfolding hint_extension
hint_extension_examples = (refl, refl)

abbrev Contents : Type 0
Contents = List (RarHeader × Text)

abbrev header_of : Contents → Option (RarHeader × Text × Contents)
header_of [] = none
header_of ((h, bytes) ∷ rest) = some (h, bytes, rest)

abbrev unrar : Unrar
unrar = record {
  Staged = Contents;
  BeforeHeader = Contents;
  AtHeader = RarHeader × Text × Contents;
  stage = λ bytes. err io_fault;
  open_for_listing = λ files. ok (map (λ (f : RarHeader × Text). ok f.0) files);
  open_for_processing = λ files. ok files;
  read_header = λ files. ok (header_of files);
  entry = λ o. o.0;
  read = λ o. ok o.1;
  skip = λ o. ok o.2;
}

abbrev intact : IsIntact unrar
intact = record {
  contents = λ files. files;
  at_end = λ before h. ap (λ (f : Contents). ok (header_of f)) h;
  at_entry = λ before h bytes rest e. record {
    cursor = (h, bytes, rest);
    next = rest;
    reads_header = ap (λ (f : Contents). ok (header_of f)) e;
    has_header = refl;
    reads_bytes = refl;
    skips = refl;
    leaves = refl;
  };
}

abbrev files : Contents
files =
    (record { filename = codes "a"; unpacked_size = 0; is_directory = true }, [])
    ∷ (record { filename = codes "a\\b"; unpacked_size = 3; is_directory = false }, codes "abc")
    ∷ []

rar_read_lem_example : rar_read unrar 3 (codes "a/b") files ≡ file_at (codes "a/b") files
rar_read_lem_example = rar_read_lem unrar intact (codes "a/b") files files 3 refl (omega arith)

file_at_example : file_at (codes "a/b") files ≡ ok (codes "abc")
unfolding file_at
file_at_example = refl

abbrev zip_file : ZipFile
zip_file = record {
  by_index = some (record { path = codes "1.png"; size = some 9; is_dir = false }) ∷ none ∷ [];
  by_name = λ name. none;
}

abbrev parsers : Parsers
parsers = record {
  Epub = Unit;
  unrar = unrar;
  zip_text = λ bytes name. none;
  epub_read = λ bytes. err io_fault;
  epub_file = λ e. record {
    title = none;
    creators = [];
    publishers = [];
    languages = [];
    published = none;
    description = none;
    identifiers = [];
    tags = [];
    manifest = [];
    cover_image = none;
    toc = [];
    spine_idrefs = [];
  };
  epub_resource = λ e path. err io_fault;
  zip_open = λ bytes. ok zip_file;
  pdf_load = λ bytes. err io_fault;
  mp4_read = λ bytes. err io_fault;
  audio_probe = λ bytes. err io_fault;
}

abbrev zipped : Text
zipped = b'P' ∷ b'K' ∷ 3 ∷ 4 ∷ []

inspect-open_example : inspect parsers zipped none ≡ inspect_archive parsers (zip zip_file)
unfolding open_archive
inspect-open_example = inspect-open parsers zipped none (zip zip_file) refl
