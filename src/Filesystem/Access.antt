-- ===== src/Filesystem/Access.antt =====
-- `prepare_path`, `resolve_for_access` and `ensure_access` of
-- rust/dion_extension/src/filesystem.rs, on Unix, where `strip_verbatim` changes nothing.
use dion_runtime.Base.{
  Bool, true, false, ◌||◌, Option, none, some, List, [], ◌++◌, Text, ◌==◌, nat_eq, list_eq, codes,
  trim, is_prefix, Result, ok, err, if◌then◌else◌,
}
use dion_runtime.Client.{Client, Codec, Fault}
use dion_runtime.UnixPath.{components, component_eq, starts_with, parent, file_name, join}
use dion_runtime.Permission.{Permission, storage}
use dion_runtime.Permission.Store as Permissions
use dion_runtime.Permission.Store.{PermissionStore, has_permission, grant}
use dion_runtime.Filesystem.Normalize.{normalize_path, dot}

pub data AccessError : Type 0 where
  content_uri empty_path denied : AccessError
  fault : Fault → AccessError

unfoldable pub prepare_path : Text → Result AccessError Text
prepare_path raw =
    let normalized = normalize_path raw in
    if is_prefix (codes "content://") (trim raw)
    then err content_uri
    else if normalized == [] || components normalized == components dot
    then err empty_path
    else ok normalized

abbrev pub is_under : Text → Text → Bool
is_under child base = starts_with child base

-- `tokio::fs::canonicalize`, with the disk as it is at the call.
abbrev pub Canonicalize : Type 0
Canonicalize = Text → Result Fault Text

abbrev resolved_parent : Text → Text → Result Fault Text → Text
resolved_parent target name (err _) = target
resolved_parent target name (ok canonical) = join canonical name

abbrev resolved_lexically : Canonicalize → Text → Option Text → Option Text → Text
resolved_lexically canonicalize target (some up) (some name) =
    resolved_parent target name (canonicalize up)
resolved_lexically canonicalize target _ _ = target

unfoldable pub resolve_for_access : Canonicalize → Text → Text
resolve_for_access canonicalize target = elim (canonicalize target) [
  | ok canonical ↦ canonical
  | err _ ↦ resolved_lexically canonicalize target (parent target) (file_name target)
]

-- The parts of the extension that an access reads: its data directory and its name.
pub record InnerExtension : Type 0 where
  pub data_dir : Text
  pub name : Text

-- What an access is asked to do: to write or to read, the path itself or a file of a directory.
pub record Access : Type 0 where
  pub write : Bool
  pub dir_target : Bool
  pub action : Text

abbrev pub or_self : Option Text → Text → Text
or_self none resolved = resolved
or_self (some up) resolved = up

abbrev pub permission_root : Access → Text → Text
permission_root access resolved =
    if access.dir_target then resolved else or_self (parent resolved) resolved

abbrev pub needed : Access → Text → Permission
needed access resolved = storage (permission_root access resolved) access.write

abbrev pub message : InnerExtension → Access → Text → Text
message ext access resolved =
    codes "Extension \""
    ++ ext.name
    ++ codes "\" wants to "
    ++ access.action
    ++ codes " "
    ++ resolved

module _ (client : Client Permission) (codec : Codec (List Permission)) where
  open client use {Host, request_permission as prompt}

  abbrev pub State : Type 0
  State = PermissionStore × Host

  -- The host's answer; the store is saved, and a failure to save it is dropped.
  abbrev pub answered :
      Permission
      → Text
      → PermissionStore
      → Result Fault Bool × Host
      → Result AccessError Text × State
  answered permission resolved s (err e, host) = (err (fault e), (s, host))
  answered permission resolved s (ok false, host) = (err denied, (s, host))
  answered permission resolved s (ok true, host) =
      let s' = grant s permission in
      (ok resolved, (s', (Permissions.persist client codec s'.permissions host).1))

  unfoldable pub ensure_resolved :
      InnerExtension → Access → Text → State → Result AccessError Text × State
  ensure_resolved ext access resolved (s, host) =
      if is_under resolved ext.data_dir
      then (ok resolved, (s, host))
      else if has_permission s (needed access resolved)
      then (ok resolved, (s, host))
      else answered (needed access resolved) resolved s
          (prompt (needed access resolved) (some (message ext access resolved)) host)

  unfoldable pub ensure_access :
      Canonicalize → InnerExtension → Access → Text → State → Result AccessError Text × State
  unfolding ensure_resolved
  ensure_access canonicalize ext access raw state = elim (prepare_path raw) [
    | err e ↦ (err e, state)
    | ok normalized ↦ ensure_resolved ext access (resolve_for_access canonicalize normalized) state
  ]
