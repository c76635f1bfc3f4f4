-- ===== src/Tests/FileExamples.antt =====
-- The theorems on paths, accesses and served files at concrete inputs.
use dion_runtime.Base.{
  ℕ, ◌≡◌, ◌≢◌, refl, true, none, some, List, [], ◌∷◌, arith, Text, ok, err, codes, length, any, all,
  false, ◌++◌, if◌then◌else◌, nat_eq,
}
use dion_runtime.Client.{Client, json_fault, Codec}
use dion_runtime.UnixPath.{starts_with, components, parent}
use dion_runtime.Permission.{Permission}
use dion_runtime.Permission.Store.{has_permission}
use dion_runtime.Filesystem.Normalize.{normalize_path, walk, take_component, join_slash}
use dion_runtime.Filesystem.Clean.{is_clean, walk-clean, walk_enough}
use dion_runtime.Filesystem.Access.{
  Access, InnerExtension, Canonicalize, permission_root, State, ensure_access, prepare_path,
  resolve_for_access,
}
use dion_runtime.Filesystem.Guards.{Guarded, ensure_access-Guarded, ensure_access_again}
use dion_runtime.RangeFile.Serve.{Files, serve_file}
use dion_runtime.RangeFile.Sizes.{Sized, serve_file-Sized}
use dion_runtime.Proxy.{
  Proxy, ProxyExtensionRef, extension_path, takes, route, active_extensions, new_extension,
}
use dion_runtime.Proxy.Routes.{route-new_extension, route_shared_prefix}
use dion_runtime.Tests.MemoryClient.{memory_client}

normalize_path_examples :
    (normalize_path (codes " /a/./b//../c ") ≡ codes "/a/c")
    × (normalize_path (codes "a/../..") ≡ codes "..")
    × (normalize_path (codes "/../a") ≡ codes "/a")
    × (normalize_path (codes "\\\\?\\c:\\a\\..\\b") ≡ codes "C:/b")
unfolding normalize_path take_component join_slash
normalize_path_examples = (refl, refl, refl, refl)

walk-clean_example : is_clean true (walk 9 true (codes "/a/../b/.") []) ≡ true
unfolding is_clean
walk-clean_example = walk-clean 9 true (codes "/a/../b/.") [] refl

walk_enough_example : walk 9 true (codes "/a/../b/.") [] ≡ walk 20 true (codes "/a/../b/.") []
walk_enough_example = walk_enough 9 20 true (codes "/a/../b/.") [] (omega arith) (omega arith)

abbrev client : Client Permission
client = memory_client Permission

abbrev codec : Codec (List Permission)
codec = record { to_string = λ l. err json_fault; from_str = λ t. err json_fault }

-- Every path is canonical.
abbrev canonicalize : Canonicalize
canonicalize path = ok path

abbrev ext : InnerExtension
ext = record { data_dir = codes "/data/ext"; name = codes "Reader" }

abbrev reading : Access
reading = record { write = false; dir_target = false; action = codes "read" }

abbrev empty : State client codec
empty = (record { permissions = [] }, [])

ensure_access-Guarded_example :
    Guarded client codec ext reading empty
      (ensure_access client codec canonicalize ext reading (codes "/books/./one.epub") empty)
ensure_access-Guarded_example =
    ensure_access-Guarded client codec canonicalize ext reading (codes "/books/./one.epub") empty

access_granted :
    (ensure_access client codec canonicalize ext reading (codes "/books/./one.epub") empty).0
    ≡ ok (codes "/books/one.epub")
unfolding ensure_access prepare_path normalize_path take_component components join_slash starts_with
    resolve_for_access has_permission
access_granted = refl

root_named : permission_root reading (codes "/books/one.epub") ≢ []
unfolding parent
root_named e = cc e

ensure_access_again_example :
    ensure_access client codec canonicalize ext reading
      (codes "/books/./one.epub")
      (ensure_access client codec canonicalize ext reading (codes "/books/./one.epub") empty).1
    ≡ (
      ok (codes "/books/one.epub"),
      (ensure_access client codec canonicalize ext reading (codes "/books/./one.epub") empty).1,
    )
ensure_access_again_example =
    ensure_access_again client codec canonicalize ext reading (codes "/books/./one.epub")
      (codes "/books/one.epub") empty access_granted root_named

-- One file of four bytes.
abbrev files : Files
files = record {
  File = Text;
  open_file = λ path. ok (1 ∷ 2 ∷ 3 ∷ 4 ∷ []);
  metadata_len = λ file. ok (length file);
  seek = λ file n. ok tt;
  bytes = λ file. file;
}

told : (file : Text) (len : ℕ) → files.metadata_len file ≡ ok len → len ≡ length file
told file len e = cc e

serve_file-Sized_example :
    Sized (serve_file files (codes "/a.mp4") none false (some (codes "bytes=1-2")))
serve_file-Sized_example =
    serve_file-Sized files (codes "/a.mp4") none (some (codes "bytes=1-2")) told

abbrev reference : Text → ProxyExtensionRef
reference id = record { held = true; alive = true; id = id; enabled = true }

abbrev gone : ProxyExtensionRef
gone = record { held = false; alive = false; id = codes "ba"; enabled = false }

abbrev proxy : Proxy
proxy = record { registered_extensions = gone ∷ reference (codes "foo") ∷ []; addr = none }

route-new_extension_example :
    (all (λ r. r.held) (new_extension (reference (codes "bar")) proxy).registered_extensions ≡ true)
    × (route
          (codes "/extproxy/bar/a")
          (active_extensions (new_extension (reference (codes "bar")) proxy))
        ≡ (if any (takes (codes "/extproxy/bar/a")) (active_extensions proxy)
            then route (codes "/extproxy/bar/a") (active_extensions proxy)
            else if takes (codes "/extproxy/bar/a") (reference (codes "bar"))
            then some (reference (codes "bar"))
            else none))
route-new_extension_example =
    route-new_extension (codes "/extproxy/bar/a") (reference (codes "bar")) proxy refl

route_shared_prefix_example :
    route (extension_path (reference (codes "foobar")) ++ codes "/a") (
      (reference (codes "other") ∷ [])
      ++ reference (codes "foo") ∷ ([] ++ reference (codes "foobar") ∷ []))
    ≡ (if any
          (takes (extension_path (reference (codes "foobar")) ++ codes "/a"))
          (reference (codes "other") ∷ [])
        then route
            (extension_path (reference (codes "foobar")) ++ codes "/a")
            (reference (codes "other") ∷ [])
        else some (reference (codes "foo")))
route_shared_prefix_example =
    route_shared_prefix (reference (codes "other") ∷ []) [] [] (reference (codes "foo"))
      (reference (codes "foobar")) (codes "/a") (codes "bar") refl refl refl
