-- ===== src/Mihon/Apk/Metadata.antt =====
-- `MihonExtensionMetadata` of rust/mihon/src/apk/metadata.rs. The zip crate is a parameter.
use dion_runtime.Base.{
  ℕ, Bool, false, ◌||◌, Option, none, some, List, [], ◌∷◌, ◌++◌, Text, codes, ◌==◌, nat_eq, list_eq,
  contains, map, if◌then◌else◌, Result, ok, err, ok_or, ◌>>=◌,
}
use dion_runtime.Base.Maps.{lookup}
use dion_runtime.Base.Texts.{unwrap_or}
use dion_runtime.RangeFile.Range.{and_then}
use dion_runtime.Timestamp.{ℤ, pos, parse_i64}
use dion_runtime.Extension.{print_int}
use dion_runtime.Mihon.Types.{Floats}
use dion_runtime.Mihon.Lenient.{i32_of}
use dion_runtime.Mihon.Mapping.{first, is_lib_compatible}
use dion_runtime.Mihon.Apk.Elements.{XmlElement, element, Children, nil, cons}
use dion_runtime.Mihon.Apk.Manifest.{Lossy, parse}

pub data ApkError : Type 0 where
  open_failed no_manifest malformed empty_manifest no_package no_application no_class : ApkError
  wrong_root : Text → ApkError

pub record MihonExtensionMetadata (f : Floats) : Type 0 where
  pub package_name : Text
  pub version_name : Text
  pub version_code : ℤ
  pub label : Text
  pub entry_class : Text
  pub nsfw : Bool
  pub lib_version : Option f.F64

abbrev name_of : XmlElement → Text
name_of (element name attributes children) = name

abbrev attribute : XmlElement → Text → Option Text
attribute (element name attributes children) key = lookup key attributes

abbrev children_of : XmlElement → Children
children_of (element name attributes children) = children

-- `children.iter().filter(|c| c.name == name)`
unfoldable pub children_named : Text → Children → List XmlElement
children_named name nil = []
children_named name (cons e es) =
    let rest = children_named name es in if name_of e == name then e ∷ rest else rest

-- `text.parse::<i32>().unwrap_or(0)`
unfoldable pub version_code_of : Option Text → ℤ
unfolding parse_i64
version_code_of none = pos 0
version_code_of (some s) = unwrap_or (and_then (parse_i64 s) i32_of) (pos 0)

abbrev class_keys : List Text
class_keys = map codes (
    "tachiyomi.extension.class" ∷ "tachiyomi.animeextension.class"
    ∷ "tachiyomi.novelextension.class" ∷ [])

abbrev nsfw_keys : List Text
nsfw_keys = map codes (
    "tachiyomi.extension.nsfw" ∷ "tachiyomi.animeextension.nsfw" ∷ "tachiyomi.novelextension.nsfw"
    ∷ [])

abbrev lib_version_keys : List Text
lib_version_keys =
    map codes ("tachiyomi.extension.lib.version" ∷ "tachiyomi.animeextension.lib.version" ∷ [])

-- A class that begins with a dot is one of the package.
abbrev pub class_of : Text → Text → Text
class_of package_name [] = []
class_of package_name (c ∷ cs) = if c == b'.' then package_name ++ c ∷ cs else c ∷ cs

module _ (f : Floats) where
  -- What the meta-data of an application told so far.
  pub record Found : Type 0 where
    pub entry_class : Text
    pub nsfw : Bool
    pub lib_version : Option f.F64

  unfoldable pub on_meta_data : Text → Text → Text → Found → Found
  on_meta_data package_name name value s =
      if contains class_keys name
      then record s { entry_class = class_of package_name value }
      else if contains nsfw_keys name
      then record s { nsfw = value == codes "1" || value == codes "true" }
      else if contains lib_version_keys name
      then record s { lib_version = f.parse value }
      else s

  unfoldable pub read_meta_data : Text → List XmlElement → Found → Found
  unfolding on_meta_data lookup
  read_meta_data package_name [] s = s
  read_meta_data package_name (e ∷ es) s = read_meta_data package_name es (
      on_meta_data package_name (unwrap_or (attribute e (codes "name")) [])
        (unwrap_or (attribute e (codes "value")) []) s)

  abbrev with_class : Text → Text → ℤ → Text → Found → Result ApkError (MihonExtensionMetadata f)
  with_class package_name version_name version_code label s =
      if s.entry_class == []
      then err no_class
      else ok (record {
        package_name = package_name;
        version_name = version_name;
        version_code = version_code;
        label = label;
        entry_class = s.entry_class;
        nsfw = s.nsfw;
        lib_version = s.lib_version;
      })

  abbrev start : Found
  start = record { entry_class = []; nsfw = false; lib_version = none }

  -- From the root of the manifest.
  unfoldable pub from_root : XmlElement → Result ApkError (MihonExtensionMetadata f)
  unfolding children_named version_code_of read_meta_data lookup
  from_root root =
      if name_of root == codes "manifest"
      then (ok_or (attribute root (codes "package")) no_package >>= λ package_name.
          let version_code = version_code_of (attribute root (codes "versionCode")) in
          let version_name =
            unwrap_or (attribute root (codes "versionName")) (print_int version_code) in
          ok_or (first (children_named (codes "application") (children_of root))) no_application
          >>= λ app.
              let label = unwrap_or (attribute app (codes "label")) package_name in
              with_class package_name version_name version_code label (
                read_meta_data package_name (children_named (codes "meta-data") (children_of app))
                  start))
      else err (wrong_root (name_of root))

  abbrev malformed_as {ℓ κ} : {E : Type κ} {A : Type ℓ} → Result E A → Result ApkError A
  malformed_as (ok a) = ok a
  malformed_as (err e) = err malformed

  -- The bytes of `AndroidManifest.xml` in an APK, if it opens and has one.
  unfoldable pub from_apk :
      Lossy → Result ApkError (List ℕ) → Result ApkError (MihonExtensionMetadata f)
  unfolding parse from_root
  from_apk l manifest = manifest >>= λ bytes.
      malformed_as (parse l bytes) >>= λ root. ok_or root empty_manifest >>= from_root

  unfoldable pub is_compatible : MihonExtensionMetadata f → Bool
  unfolding is_lib_compatible
  is_compatible metadata = is_lib_compatible f metadata.lib_version
