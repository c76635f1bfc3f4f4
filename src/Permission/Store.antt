-- ===== src/Permission/Store.antt =====
-- rust/core/src/store/permission.rs: the permissions that an extension holds.
use dion_runtime.Base.{
  Bool, true, false, Option, List, [], ◌∷◌, ◌++◌, Text, String, ◌==◌, any, filter, not, Result, ok,
  err, is_blank, if◌then◌else◌,
}
use dion_runtime.Client.{Client, Codec, Fault}
use dion_runtime.Permission.{Permission, permission_eq, allows}

pub record PermissionStore : Type 0 where
  pub permissions : List Permission

abbrev pub permission_storage_key : String
permission_storage_key = "permission"

unfoldable pub has_permission : PermissionStore → Permission → Bool
has_permission s permission = any (λ p. allows p permission) s.permissions

unfoldable pub grant : PermissionStore → Permission → PermissionStore
unfolding has_permission
grant s permission =
    if has_permission s permission
    then s
    else record s { permissions = s.permissions ++ permission ∷ [] }

-- `Vec::extract_if(0.., pred)` drained to its end: what stays in the vector, and what it yields.
unfoldable pub extract_if {ℓ} : {A : Type ℓ} → (A → Bool) → List A → List A × List A
extract_if pred l = (filter (λ x. not (pred x)) l, filter pred l)

-- The yielded elements are collected into the field.
unfoldable pub remove_permission : PermissionStore → Permission → PermissionStore
unfolding extract_if
remove_permission s permission =
    let (_, extracted) = extract_if (λ item. item == permission) s.permissions in
    record s { permissions = extracted }

module _ (client : Client Permission) (codec : Codec (List Permission)) where
  open client use {Host, load_data_secure, store_data_secure}
  open codec use {to_string, from_str}

  unfoldable pub load_data : PermissionStore → Host → Result Fault PermissionStore
  load_data s host = elim (load_data_secure permission_storage_key host) [
    | err e ↦ err e
    | ok text ↦ if is_blank text then ok s else elim (from_str text) [
      | err e ↦ err e
      | ok permissions ↦ ok (record s { permissions = permissions })
    ]
  ]

  -- A failed load leaves the store empty.
  unfoldable pub new : Host → PermissionStore
  unfolding load_data
  new host =
      let ret : PermissionStore = record { permissions = [] } in
      elim (load_data ret host) [ ok s ↦ s | err _ ↦ ret ]

  unfoldable pub persist : List Permission → Host → Result Fault (Unit {0}) × Host
  persist permissions host = elim (to_string permissions) [
    | err e ↦ (err e, host)
    | ok text ↦ store_data_secure permission_storage_key text host
  ]

  unfoldable pub save_state : PermissionStore → Host → Result Fault (Unit {0}) × Host
  unfolding persist
  save_state s = persist s.permissions

module _ (client : Client Permission) where
  open client use {Host, request_permission as prompt}

  -- The host's answer, and the store and host after it.
  abbrev pub answered :
      PermissionStore
      → Permission
      → Result Fault Bool × Host
      → Result Fault Bool × PermissionStore × Host
  answered s permission (err e, host) = (err e, s, host)
  answered s permission (ok false, host) = (ok false, s, host)
  answered s permission (ok true, host) =
      (ok true, record s { permissions = s.permissions ++ permission ∷ [] }, host)

  unfoldable pub request_permission :
      PermissionStore → Permission → Option Text → Host → Result Fault Bool × PermissionStore × Host
  unfolding has_permission
  request_permission s permission msg host =
      if has_permission s permission
      then (ok true, s, host)
      else answered s permission (prompt permission msg host)
