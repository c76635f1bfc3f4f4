-- ===== src/ExtensionManager/Confined.antt =====
-- What `install` may change in the file system.
use dion_runtime.Base.{
  ◌≡◌, refl, ap, ◌∙◌, false, ◌||◌, inl, inr, Bool-cases, Option, none, some, List, [], ◌∷◌, ◌++◌,
  Text, codes, Result, ok, err, Result-cases, All, if◌then◌else◌, is_prefix, strip_prefix, ok_or,
  nat_eq,
}
use dion_runtime.Base.Action.{Action, continue, lift, bail}
use dion_runtime.Client.{Fault}
use dion_runtime.UnixPath.{components, normal, join}
use dion_runtime.Extension.{ExtensionData}
use dion_runtime.ExtensionManager.Metadata.{
  ManagerError, io_failed, network_failed, host_failed, cleanup_failed, load_failed, not_utf8,
  Manifests, is_unsafe_id, validate_id, peek_manifest_string,
}
use dion_runtime.ExtensionManager.Platform.{Platform, Event, wrote, removed, copied, target, logged}
use dion_runtime.ExtensionManager.Install.{
  script_name, mapped, call, peek_manifest, create_or_remove, put_script, install_body,
  install_http, absolute_path, install_copy, install_file, install_at, install,
}
use dion_runtime.ExtensionManager.Paths.{script_path-components}

-- The change is of a script directly in the directory that the host names.
abbrev pub IsConfined : Platform → Event → Type 0
IsConfined p e =
    (dir : Text) × (id : Text) × (w : p.World) × ((p.get_path w).0 ≡ ok dir)
    × (target e ≡ join dir (script_name id))
    × (components (target e) ≡ components dir ++ normal (script_name id) ∷ [])

module _ (m : Manifests) (p : Platform) where
  abbrev Logged : Type 0
  Logged = List Event × p.World

  -- What each step of an action keeps, the action keeps.
  step-All :
      {A B : Type 0} (r : Result ManagerError A × Logged) (f : A → Action Logged ManagerError B)
      → All (IsConfined p) r.1.0
      → ((a : A) (w : Logged)
          → r.0 ≡ ok a
          → All (IsConfined p) w.0
          → All (IsConfined p) (f a w).1.0)
      → All (IsConfined p) (continue r f).1.0
  step-All (ok a, w) f h k = k a w refl h
  step-All (err e, w) f h k = h

  mapped-All :
      {A : Type 0} (e : ManagerError) (r : Result Fault A × Logged)
      → All (IsConfined p) r.1.0
      → All (IsConfined p) (mapped m (logged p) e r).1.0
  mapped-All e (ok a, w) h = h
  mapped-All e (err f, w) h = h

  mapped-ok :
      {A : Type 0} (e : ManagerError) (r : Result Fault A × Logged) (a : A)
      → (mapped m (logged p) e r).0 ≡ ok a
      → r.0 ≡ ok a
  mapped-ok e (ok a, w) b h = cc h
  mapped-ok e (err f, w) b h = absurd (cc h)

  module _ (dir id : Text) (w0 : p.World) (named : (p.get_path w0).0 ≡ ok dir)
      (safe : is_unsafe_id id ≡ false) where
    at_script : (e : Event) → target e ≡ join dir (script_name id) → IsConfined p e
    at_script e h = (dir, id, w0, named, h, ap components h ∙ script_path-components dir id safe)

    create_or_remove-All :
        (w : Logged)
        → All (IsConfined p) w.0
        → All (IsConfined p) (create_or_remove m (logged p) (join dir (script_name id)) w).1.0
    unfolding create_or_remove
    create_or_remove-All w h = elim (Result-cases (p.create (join dir (script_name id)) w.1).0) [
      | inl (ext, e) ↦ rw e h
      | inr (c, e) ↦
          let path = join dir (script_name id) in
          let after = (p.create path w.1).1 in
          rw e (
            step-All {B = p.Loaded}
              (call m (logged p) cleanup_failed ((logged p).remove_file path) (w.0, after))
              (λ _. bail load_failed)
              (mapped-All cleanup_failed ((logged p).remove_file path (w.0, after))
                (at_script (removed path) refl, h))
              (λ a v e k. k))
    ]

    put_script-All :
        (put : Text → Action Logged Fault (Unit {0})) (w : Logged)
        → All (IsConfined p) (put (join dir (script_name id)) w).1.0
        → All (IsConfined p) (put_script m (logged p) put dir id w).1.0
    unfolding put_script
    put_script-All put w h =
        step-All (call m (logged p) io_failed (put (join dir (script_name id))) w)
          (λ _. create_or_remove m (logged p) (join dir (script_name id)))
          (mapped-All io_failed (put (join dir (script_name id)) w) h)
          (λ a v e k. create_or_remove-All v k)

  safe_of_valid : (id : Text) (a : Unit {0}) → validate_id id ≡ ok a → is_unsafe_id id ≡ false
  unfolding validate_id
  safe_of_valid id a h = elim (Bool-cases (is_unsafe_id id)) [
    | inl bad ↦ absurd (cc (rw bad at h))
    | inr good ↦ good
  ]

  install_body-All :
      (dir body id : Text) (w : Logged) (w0 : p.World)
      → (p.get_path w0).0 ≡ ok dir
      → All (IsConfined p) w.0
      → All (IsConfined p) (install_body m (logged p) dir body id w).1.0
  unfolding install_body
  install_body-All dir body id w w0 named h =
      let write = λ (extpath : Text). (logged p).write extpath (p.to_bytes body) in
      step-All (lift (validate_id id) w) (λ _. put_script m (logged p) write dir id) h
        λ a v e k.
          let safe = safe_of_valid id a e in
          put_script-All dir id w0 named safe write v
            (at_script dir id w0 named safe (wrote (join dir (script_name id))) refl, k)

  install_http-All :
      (dir url : Text) (w : Logged) (w0 : p.World)
      → (p.get_path w0).0 ≡ ok dir
      → All (IsConfined p) w.0
      → All (IsConfined p) (install_http m (logged p) dir url w).1.0
  unfolding install_http
  install_http-All dir url w w0 named h =
      step-All (call m (logged p) network_failed ((logged p).http_text url) w)
        (λ body. λ v.
          continue (lift (peek_manifest_string m body) v)
            (λ (d : ExtensionData). install_body m (logged p) dir body d.id))
        (mapped-All network_failed ((logged p).http_text url w) h)
        λ body v e k.
          step-All (lift (peek_manifest_string m body) v)
            (λ (d : ExtensionData). install_body m (logged p) dir body d.id) k
            (λ d u e' k'. install_body-All dir body d.id u w0 named k')

  install_copy-All :
      (path id : Text) (w : Logged)
      → All (IsConfined p) w.0
      → All (IsConfined p) (install_copy m (logged p) path id w).1.0
  unfolding install_copy
  install_copy-All path id w h =
      let rest = λ (dir : Text). put_script m (logged p) ((logged p).copy path) dir id in
      step-All (lift (validate_id id) w)
        (λ _. λ v. continue (call m (logged p) host_failed (logged p).get_path v) rest) h
        λ a v e k.
          step-All (call m (logged p) host_failed (logged p).get_path v) rest
            (mapped-All host_failed ((logged p).get_path v) k)
            λ dir u e' k'.
              let named : (p.get_path v.1).0 ≡ ok dir =
                mapped-ok host_failed ((logged p).get_path v) dir e' in
              let safe = safe_of_valid id a e in
              put_script-All dir id v.1 named safe ((logged p).copy path) u
                (at_script dir id v.1 named safe (copied path (join dir (script_name id))) refl, k')

  peek_manifest-All :
      (path : Text) (w : Logged)
      → All (IsConfined p) w.0
      → All (IsConfined p) (peek_manifest m (logged p) path w).1.0
  unfolding peek_manifest
  peek_manifest-All path w h =
      step-All (call m (logged p) io_failed ((logged p).read path) w)
        (λ bytes. λ v.
          continue (lift (ok_or (p.from_utf8 bytes) not_utf8) v)
            (λ t. lift (peek_manifest_string m t)))
        (mapped-All io_failed ((logged p).read path w) h)
        λ bytes v e k.
          step-All (lift (ok_or (p.from_utf8 bytes) not_utf8) v)
            (λ t. lift (peek_manifest_string m t)) k (λ t u e' k'. k')

  install_file-All :
      (location : Text) (w : Logged)
      → All (IsConfined p) w.0
      → All (IsConfined p) (install_file m (logged p) location w).1.0
  unfolding install_file
  install_file-All location w h =
      step-All (lift (absolute_path m (logged p) location) w)
        (λ path. λ v.
          continue (peek_manifest m (logged p) path v)
            (λ (d : ExtensionData). install_copy m (logged p) path d.id))
        h
        λ path v e k.
          step-All (peek_manifest m (logged p) path v)
            (λ (d : ExtensionData). install_copy m (logged p) path d.id)
            (peek_manifest-All path v k) (λ d u e' k'. install_copy-All path d.id u k')

  install_at-All :
      (dir url : Text) (o : Option Text) (w : Logged)
      → All (IsConfined p) w.0
      → All (IsConfined p) (install_at m (logged p) dir url o w).1.0
  install_at-All dir url none w h = h
  install_at-All dir url (some location) w h = install_file-All location w h

  -- Whatever the URL, the network, the host and the manifests answer: each file that install
  -- writes, copies to or removes is named after an id and is exactly one component below a
  -- directory that the host named as that of the extensions.
  pub install-Confined :
      (url : Text) (w : p.World) → All (IsConfined p) (install m (logged p) url ([], w)).1.0
  unfolding install
  install-Confined url w =
      let is_http = is_prefix (codes "http://") url || is_prefix (codes "https://") url in
      step-All (call m (logged p) host_failed (logged p).get_path ([], w))
        (λ dir.
          if is_http
          then install_http m (logged p) dir url
          else install_at m (logged p) dir url (strip_prefix (codes "file://") url))
        (mapped-All host_failed ((logged p).get_path ([], w)) tt)
        λ dir v e k.
          let named = mapped-ok host_failed ((logged p).get_path ([], w)) dir e in
          elim (Bool-cases is_http) [
            | inl http ↦ rw http (install_http-All dir url v w named k)
            | inr other ↦ rw other (install_at-All dir url (strip_prefix (codes "file://") url) v k)
          ]
