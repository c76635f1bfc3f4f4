-- ===== src/ExtensionManager/Uninstall.antt =====
-- What `uninstall` removes.
use dion_runtime.Base.{
  ◌≡◌, refl, ap, ◌∙◌, true, ◌⊎◌, inl, inr, Bool-cases, List, [], ◌∷◌, Text, Result, ok, err, ok_or,
  list_eq, nat_eq, list_beq_iff,
}
use dion_runtime.Base.Action.{Action, continue, lift}
use dion_runtime.Client.{Fault}
use dion_runtime.UnixPath.{join}
use dion_runtime.Extension.{ExtensionData}
use dion_runtime.ExtensionManager.Metadata.{
  ManagerError, io_failed, host_failed, not_utf8, not_found, Manifests, validate_id,
  peek_manifest_string,
}
use dion_runtime.ExtensionManager.Platform.{Platform, DirEntry, Event, removed, logged}
use dion_runtime.ExtensionManager.Install.{
  script_name, is_script, mapped, call, peek_manifest, has_id, names_id, remove_listed,
  uninstall_in, uninstall,
}

module _ (m : Manifests) (p : Platform) where
  abbrev Logged : Type 0
  Logged = List Event × p.World

  -- One file is removed, whose manifest was read and has the id; or nothing is, and there is an error.
  abbrev pub IsRemoval : Text → Result ManagerError (Unit {0}) × Logged → Type 0
  IsRemoval id r =
      ((path : Text) × (d : ExtensionData) × (v : Logged) × (r.1.0 ≡ removed path ∷ [])
        × ((peek_manifest m (logged p) path v).0 ≡ ok d)
        × (d.id ≡ id))
      ⊎ ((e : ManagerError) × (r.1.0 ≡ []) × (r.0 ≡ err e))

  mapped-log :
      {A : Type 0} (e : ManagerError) (r : Result Fault A × Logged)
      → (mapped m (logged p) e r).1.0 ≡ r.1.0
  mapped-log e (ok a, v) = refl
  mapped-log e (err f, v) = refl

  continue-log :
      {A B : Type 0} (r : Result ManagerError A × Logged) (f : A → Action Logged ManagerError B)
      (log : List Event)
      → r.1.0 ≡ log
      → ((a : A) (v : Logged) → (f a v).1.0 ≡ v.0)
      → (continue r f).1.0 ≡ log
  continue-log (ok a, v) f log h k = k a v ∙ h
  continue-log (err e, v) f log h k = h

  -- Reading a manifest changes nothing.
  peek_manifest-log : (path : Text) (v : Logged) → (peek_manifest m (logged p) path v).1.0 ≡ v.0
  unfolding peek_manifest
  peek_manifest-log path v =
      continue-log (call m (logged p) io_failed ((logged p).read path) v)
        (λ bytes. λ u.
          continue (lift (ok_or (p.from_utf8 bytes) not_utf8) u)
            (λ t. lift (peek_manifest_string m t)))
        v.0 (mapped-log io_failed ((logged p).read path v))
        λ bytes u.
          continue-log (lift (ok_or (p.from_utf8 bytes) not_utf8) u)
            (λ t. lift (peek_manifest_string m t)) u.0 refl (λ t x. refl)

  has_id-data :
      (id : Text) (r : Result ManagerError ExtensionData)
      → has_id m (logged p) id r ≡ true
      → (d : ExtensionData) × (r ≡ ok d) × (d.id ≡ id)
  has_id-data id (ok d) h = (d, refl, (list_beq_iff d.id id).0 h)
  has_id-data id (err e) h = absurd (cc h)

  -- A file that names the id is removed.
  remove-IsRemoval :
      (id path : Text) (v u : Logged)
      → u.0 ≡ []
      → has_id m (logged p) id (peek_manifest m (logged p) path v).0 ≡ true
      → IsRemoval id (call m (logged p) io_failed ((logged p).remove_file path) u)
  remove-IsRemoval id path v u h named =
      let found = has_id-data id (peek_manifest m (logged p) path v).0 named in
      inl (
        path,
        found.0,
        v,
        mapped-log io_failed ((logged p).remove_file path u) ∙ ap (λ l. removed path ∷ l) h,
        found.1,
        found.2,
      )

  remove_listed-IsRemoval :
      (id : Text) (entries : List (Result Fault DirEntry)) (v : Logged)
      → v.0 ≡ []
      → IsRemoval id (remove_listed m (logged p) id entries v)
  unfolding remove_listed names_id
  remove_listed-IsRemoval id [] v h = inr (not_found, h, refl)
  remove_listed-IsRemoval id (err e ∷ entries) v h = inr (io_failed, h, refl)
  remove_listed-IsRemoval id (ok entry ∷ entries) v h = elim (Bool-cases (is_script entry)) [
    | inr other ↦ rw other (remove_listed-IsRemoval id entries v h)
    | inl script ↦
        let peek = peek_manifest m (logged p) entry.path v in
        let same : peek.1.0 ≡ [] = peek_manifest-log entry.path v ∙ h in
        elim (Bool-cases (has_id m (logged p) id peek.0)) [
          | inl named ↦ rw (script, named) (remove-IsRemoval id entry.path v peek.1 same named)
          | inr unnamed ↦ rw (script, unnamed) (remove_listed-IsRemoval id entries peek.1 same)
        ]
  ]

  step-IsRemoval :
      {A : Type 0} (id : Text) (r : Result ManagerError A × Logged)
      (f : A → Action Logged ManagerError (Unit {0}))
      → r.1.0 ≡ []
      → ((a : A) (v : Logged) → v.0 ≡ [] → IsRemoval id (f a v))
      → IsRemoval id (continue r f)
  step-IsRemoval id (ok a, v) f h k = k a v h
  step-IsRemoval id (err e, v) f h k = inr (e, h, refl)

  scan-IsRemoval :
      (id path : Text) (v : Logged)
      → v.0 ≡ []
      → IsRemoval id (
          continue
            (call m (logged p) io_failed ((logged p).read_dir path) v)
            (remove_listed m (logged p) id))
  scan-IsRemoval id path v h =
      step-IsRemoval id (call m (logged p) io_failed ((logged p).read_dir path) v)
        (remove_listed m (logged p) id) (mapped-log io_failed ((logged p).read_dir path v) ∙ h)
        (λ entries u k. remove_listed-IsRemoval id entries u k)

  in_directory :
      (id path : Text) (v : Logged) → v.0 ≡ [] → IsRemoval id (uninstall_in m (logged p) id path v)
  unfolding uninstall_in names_id
  in_directory id path v h =
      let extpath = join path (script_name id) in
      let peek = peek_manifest m (logged p) extpath v in
      let same : peek.1.0 ≡ [] = peek_manifest-log extpath v ∙ h in
      elim (Bool-cases (has_id m (logged p) id peek.0)) [
        | inl named ↦ rw named (remove-IsRemoval id extpath v peek.1 same named)
        | inr unnamed ↦ rw unnamed (scan-IsRemoval id path peek.1 same)
      ]

  -- An uninstall either removes, or tries to remove, exactly one file, whose manifest was read and
  -- has the id, or it changes no file and fails.
  pub uninstall-IsRemoval :
      (id : Text) (w : p.World) → IsRemoval id (uninstall m (logged p) id ([], w))
  unfolding uninstall
  uninstall-IsRemoval id w =
      step-IsRemoval id (lift (validate_id id) ([], w))
        (λ _. λ v.
          continue (call m (logged p) host_failed (logged p).get_path v)
            (uninstall_in m (logged p) id))
        refl
        λ a v h.
          step-IsRemoval id (call m (logged p) host_failed (logged p).get_path v)
            (uninstall_in m (logged p) id) (mapped-log host_failed ((logged p).get_path v) ∙ h)
            (λ path u k. in_directory id path u k)
