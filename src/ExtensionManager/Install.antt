-- ===== src/ExtensionManager/Install.antt =====
-- `DionExtensionAdapter` of rust/dion_extension/src/extension_manager.rs: `get_extensions`,
-- `install`, `uninstall`, and the repository operations.
use dion_runtime.Base.{
  ℕ, Bool, false, ◌||◌, Option, none, some, List, [], ◌∷◌, ◌++◌, Text, codes, ◌==◌, nat_eq, list_eq,
  is_prefix, strip_prefix, if◌then◌else◌, Result, ok, err, ok_or,
}
use dion_runtime.Base.Action.{Action, pure, bail, lift, ◌>>=◌}
use dion_runtime.Base.Texts.{ends_with}
use dion_runtime.Client.{Fault, io_fault}
use dion_runtime.UnixPath.{join, is_absolute}
use dion_runtime.Extension.{ExtensionData, RemoteExtension, RemoteExtensionResult, ExtensionRepo}
use dion_runtime.ExtensionManager.Metadata.{
  ManagerError, host_failed, io_failed, network_failed, json_failed, not_utf8, unknown_protocol,
  not_absolute, load_failed, cleanup_failed, not_found, Manifests, validate_id,
  peek_manifest_string,
}
use dion_runtime.ExtensionManager.Repos.{DionRepoIndex, into_repo, into_result}
use dion_runtime.ExtensionManager.Platform.{Platform, DirEntry}

abbrev pub script_suffix : Text
script_suffix = codes ".dion.js"

-- `format!("{}.dion.js", id)`
abbrev pub script_name : Text → Text
script_name id = id ++ script_suffix

-- Whether an entry of a directory is a script.
unfoldable pub is_script : DirEntry → Bool
unfolding ends_with
is_script entry = elim entry.file_name [ none ↦ false | some name ↦ ends_with name script_suffix ]

module _ (m : Manifests) (p : Platform) where
  open p use {
    World, Bytes, Loaded, from_utf8, to_bytes, get_path, http_text, read, read_dir, write, copy,
    remove_file, create,
  }

  -- `map_err`
  abbrev pub mapped :
      {A : Type 0} → ManagerError → Result Fault A × World → Result ManagerError A × World
  mapped e (ok a, w) = (ok a, w)
  mapped e (err f, w) = (err e, w)

  abbrev pub call : {A : Type 0} → ManagerError → Action World Fault A → Action World ManagerError A
  call e act w = mapped e (act w)

  unfoldable pub peek_manifest : Text → Action World ManagerError ExtensionData
  unfolding peek_manifest_string
  peek_manifest path = do
    bytes ← call io_failed (read path)
    contents ← lift (ok_or (from_utf8 bytes) not_utf8)
    lift (peek_manifest_string m contents)

  -- The extension, or else its file is removed again.
  abbrev pub kept_if_loaded :
      Text → Result Fault Loaded × World → Result ManagerError Loaded × World
  kept_if_loaded extpath (ok ext, w) = (ok ext, w)
  kept_if_loaded extpath (err e, w) =
      (call cleanup_failed (remove_file extpath) >>= λ _. bail load_failed) w

  unfoldable pub create_or_remove : Text → Action World ManagerError Loaded
  create_or_remove extpath w = kept_if_loaded extpath (create extpath w)

  -- The script is put in its place and loaded.
  unfoldable pub put_script :
      (Text → Action World Fault (Unit {0})) → Text → Text → Action World ManagerError Loaded
  unfolding join create_or_remove
  put_script put dir id = do
    _ ← call io_failed (put (join dir (script_name id)))
    create_or_remove (join dir (script_name id))

  unfoldable pub install_body : Text → Text → Text → Action World ManagerError Loaded
  unfolding validate_id put_script
  install_body dir body id = do
    _ ← lift (validate_id id)
    put_script (λ extpath. write extpath (to_bytes body)) dir id

  unfoldable pub install_http : Text → Text → Action World ManagerError Loaded
  unfolding peek_manifest_string install_body
  install_http dir url = do
    body ← call network_failed (http_text url)
    manifest ← lift (peek_manifest_string m body)
    install_body dir body manifest.id

  abbrev pub absolute_path : Text → Result ManagerError Text
  absolute_path path = if is_absolute path then ok path else err not_absolute

  unfoldable pub install_copy : Text → Text → Action World ManagerError Loaded
  unfolding validate_id put_script
  install_copy path id = do
    _ ← lift (validate_id id)
    dir ← call host_failed get_path
    put_script (copy path) dir id

  unfoldable pub install_file : Text → Action World ManagerError Loaded
  unfolding peek_manifest install_copy
  install_file location = do
    path ← lift (absolute_path location)
    manifest ← peek_manifest path
    install_copy path manifest.id

  abbrev pub install_at : Text → Text → Option Text → Action World ManagerError Loaded
  install_at path url (some location) = install_file location
  install_at path url none = bail unknown_protocol

  unfoldable pub install : Text → Action World ManagerError Loaded
  unfolding install_http install_file
  install url = do
    path ← call host_failed get_path
    if is_prefix (codes "http://") url || is_prefix (codes "https://") url
        then install_http path url
        else install_at path url (strip_prefix (codes "file://") url)

  -- Whether a file has the manifest of an extension.
  abbrev pub has_id : Text → Result ManagerError ExtensionData → Bool
  has_id id (ok d) = d.id == id
  has_id id (err e) = false

  unfoldable pub names_id : Text → Text → World → Bool × World
  unfolding peek_manifest
  names_id id path w = let peek = peek_manifest path w in (has_id id peek.0, peek.1)

  -- The loop over the directory.
  unfoldable pub remove_listed :
      Text → List (Result Fault DirEntry) → Action World ManagerError (Unit {0})
  unfolding is_script names_id
  remove_listed id [] w = (err not_found, w)
  remove_listed id (err e ∷ entries) w = (err io_failed, w)
  remove_listed id (ok entry ∷ entries) w =
      let peeked = if is_script entry then names_id id entry.path w else (false, w) in
      let rest = remove_listed id entries peeked.1 in
      if peeked.0 then call io_failed (remove_file entry.path) peeked.1 else rest

  -- The expected file first, and then the directory.
  unfoldable pub uninstall_in : Text → Text → Action World ManagerError (Unit {0})
  unfolding join names_id remove_listed
  uninstall_in id path w =
      let named = names_id id (join path (script_name id)) w in
      if named.0
      then call io_failed (remove_file (join path (script_name id))) named.1
      else (call io_failed (read_dir path) >>= remove_listed id) named.1

  unfoldable pub uninstall : Text → Action World ManagerError (Unit {0})
  unfolding validate_id uninstall_in
  uninstall id = do
    _ ← lift (validate_id id)
    path ← call host_failed get_path
    uninstall_in id path

  -- What is no script, and what does not load, is left out.
  abbrev with_loaded :
      Result Fault Loaded → Result ManagerError (List Loaded) → Result ManagerError (List Loaded)
  with_loaded (ok ext) (ok exts) = ok (ext ∷ exts)
  with_loaded (err e) r = r
  with_loaded (ok ext) (err e) = err e

  unfoldable pub load_listed :
      List (Result Fault DirEntry) → Action World ManagerError (List Loaded)
  unfolding is_script
  load_listed [] w = (ok [], w)
  load_listed (err e ∷ entries) w = (err io_failed, w)
  load_listed (ok entry ∷ entries) w =
      let loaded = if is_script entry then create entry.path w else (err io_fault, w) in
      let rest = load_listed entries loaded.1 in (with_loaded loaded.0 rest.0, rest.1)

  unfoldable pub get_extensions : Action World ManagerError (List Loaded)
  unfolding load_listed
  get_extensions = do
    path ← call host_failed get_path
    entries ← call io_failed (read_dir path)
    load_listed entries

  -- The requests to a repository, and the parsing of the answers (reqwest).
  module _ (get_index : Text → Action World Fault (DionRepoIndex m.carried))
      (get_definition : Text → Action World Fault (ℕ × Option RemoteExtension)) where
    abbrev definition : ℕ × Option RemoteExtension → Result ManagerError (Option RemoteExtension)
    definition (status, parsed) =
        if status == 404
        then ok none
        else (elim parsed [ none ↦ err json_failed | some r ↦ ok (some r) ])

    unfoldable pub get_remote_extension :
        ExtensionRepo → Text → Action World ManagerError (Option RemoteExtension)
    get_remote_extension repo id = do
      answer ←
          call network_failed (get_definition (repo.remote_id ++ codes "/extensiondefs/" ++ id))
      lift (definition answer)

    unfoldable pub get_repo : Text → Action World ManagerError ExtensionRepo
    unfolding into_repo
    get_repo url = do index ← call network_failed (get_index url); pure (into_repo index url)

    unfoldable pub browse_repo : ExtensionRepo → Action World ManagerError RemoteExtensionResult
    unfolding into_result
    browse_repo repo = do
      index ← call network_failed (get_index repo.remote_id)
      pure (into_result m index repo.remote_id)
