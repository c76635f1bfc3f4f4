-- ===== src/Filesystem/Guards.antt =====
-- What `ensure_access` of rust/dion_extension/src/filesystem.rs lets through.
use dion_runtime.Base.{
  ◌≡◌, ◌≢◌, refl, sym, ap, subst, ◌∙◌, Bool, true, false, ◌||◌, ◌⊎◌, inl, inr, some, List, [],
  arith, Text, Result, ok, err, Result-cases, Bool-cases,
}
use dion_runtime.Client.{Client, Codec, Fault}
use dion_runtime.Permission.{Permission, allows}
use dion_runtime.Permission.Allows.{allows_refl}
use dion_runtime.Permission.Store.{PermissionStore, has_permission}
use dion_runtime.Permission.StoreLaws.{has_permission-grant}
use dion_runtime.Filesystem.Access.{
  Access, AccessError, InnerExtension, Canonicalize, is_under, needed, permission_root, message,
  State, answered, ensure_resolved, ensure_access, prepare_path, resolve_for_access,
}

module _ (client : Client Permission) (codec : Codec (List Permission)) where
  open client use {Host, request_permission as prompt}

  -- What an access may answer. It lets a path through that is in the data directory, or whose
  -- permission was held, and then changes nothing, or after the host said yes to a request for the
  -- path's permission, and then the store allows that in addition and nothing else. Where it
  -- fails the store is what it was.
  abbrev pub Guarded :
      InnerExtension
      → Access
      → State client codec
      → Result AccessError Text × State client codec
      → Type 0
  Guarded ext access (s, host) (err e, (s', host')) = s' ≡ s
  Guarded ext access (s, host) (ok resolved, (s', host')) =
      ((is_under resolved ext.data_dir ≡ true) × (s' ≡ s) × (host' ≡ host))
      ⊎ (((has_permission s (needed access resolved) ≡ true) × (s' ≡ s) × (host' ≡ host))
          ⊎ (((prompt (needed access resolved) (some (message ext access resolved)) host).0
                ≡ ok true)
              × ((q : Permission)
                  → has_permission s' q
                    ≡ (has_permission s q || allows (needed access resolved) q))))

  answered-Guarded :
      (ext : InnerExtension) (access : Access) (resolved : Text) (s : PermissionStore) (host : Host)
      (r : Result Fault Bool × Host)
      → prompt (needed access resolved) (some (message ext access resolved)) host ≡ r
      → Guarded ext access (s, host) (answered client codec (needed access resolved) resolved s r)
  answered-Guarded ext access resolved s host (err e, host') h = refl
  answered-Guarded ext access resolved s host (ok false, host') h = refl
  answered-Guarded ext access resolved s host (ok true, host') h =
      inr (inr (ap (λ r. r.0) h, λ q. has_permission-grant s (needed access resolved) q))

  ensure_resolved-Guarded :
      (ext : InnerExtension) (access : Access) (resolved : Text) (s : PermissionStore) (host : Host)
      → Guarded ext access (s, host) (ensure_resolved client codec ext access resolved (s, host))
  unfolding ensure_resolved
  ensure_resolved-Guarded ext access resolved s host =
      elim (Bool-cases (is_under resolved ext.data_dir)) [
        | inl inside ↦ rw inside (inl (inside, refl, refl))
        | inr outside ↦ elim (Bool-cases (has_permission s (needed access resolved))) [
          | inl held ↦ rw (outside, held) (inr (inl (held, refl, refl)))
          | inr missing ↦
              rw (outside, missing)
                (answered-Guarded ext access resolved s host
                  (prompt (needed access resolved) (some (message ext access resolved)) host) refl)
        ]
      ]

  -- Whatever the raw path and the file system, an access lets a path through only if it is in the
  -- extension's data directory, if its permission was held, or if the host has just said yes to a
  -- request for that permission, which the store then allows in addition to what it allowed, and
  -- nothing else; an access that fails leaves the store as it was.
  pub ensure_access-Guarded :
      (canonicalize : Canonicalize) (ext : InnerExtension) (access : Access) (raw : Text)
      (state : State client codec)
      → Guarded ext access state (ensure_access client codec canonicalize ext access raw state)
  unfolding ensure_access
  ensure_access-Guarded canonicalize ext access raw (s, host) =
      elim (Result-cases (prepare_path raw)) [
        | inl (normalized, e) ↦
            rw (e, ensure_access)
              (ensure_resolved-Guarded ext access (resolve_for_access canonicalize normalized) s
                host)
        | inr (x, e) ↦ rw (e, ensure_access) refl
      ]

  -- A path that is let through at once.
  let_through :
      (ext : InnerExtension) (access : Access) (resolved : Text) (s : PermissionStore) (host : Host)
      → (is_under resolved ext.data_dir || has_permission s (needed access resolved)) ≡ true
      → ensure_resolved client codec ext access resolved (s, host) ≡ (ok resolved, (s, host))
  unfolding ensure_resolved
  let_through ext access resolved s host h = elim (Bool-cases (is_under resolved ext.data_dir)) [
    | inl inside ↦ rw inside refl
    | inr outside ↦
        let held : has_permission s (needed access resolved) ≡ true = ground arith in
        rw (outside, held) refl
  ]

  -- What an answer makes hold, for a path whose permission can be granted.
  Opened : InnerExtension → Access → Text → Result AccessError Text × State client codec → Type 0
  Opened ext access resolved r =
      (path : Text)
      → r.0 ≡ ok path
      → permission_root access path ≢ []
      → (path ≡ resolved)
        × ((is_under resolved ext.data_dir || has_permission r.1.0 (needed access resolved)) ≡ true)

  answered-Opened :
      (ext : InnerExtension) (access : Access) (resolved : Text) (s : PermissionStore)
      (r : Result Fault Bool × Host)
      → Opened ext access resolved (answered client codec (needed access resolved) resolved s r)
  unfolding Opened
  answered-Opened ext access resolved s (err e, host) path h n = absurd (cc h)
  answered-Opened ext access resolved s (ok false, host) path h n = absurd (cc h)
  answered-Opened ext access resolved s (ok true, host) path h n =
      let same : path ≡ resolved = cc h in
      let root : permission_root access resolved ≢ [] =
        subst (λ t. permission_root access t ≢ []) same n in
      (
        same,
        ground (
          arith,
          has_permission-grant s (needed access resolved) (needed access resolved),
          allows_refl (needed access resolved) root,
        ),
      )

  ensure_resolved-Opened :
      (ext : InnerExtension) (access : Access) (resolved : Text) (s : PermissionStore) (host : Host)
      → Opened ext access resolved (ensure_resolved client codec ext access resolved (s, host))
  unfolding ensure_resolved Opened
  ensure_resolved-Opened ext access resolved s host =
      elim (Bool-cases (is_under resolved ext.data_dir)) [
        | inl inside ↦ rw inside (λ path h n. (cc h, refl))
        | inr outside ↦ elim (Bool-cases (has_permission s (needed access resolved))) [
          | inl held ↦ rw (outside, held) (λ path h n. (cc h, held))
          | inr missing ↦
              let a =
                answered-Opened ext access resolved s
                  (prompt (needed access resolved) (some (message ext access resolved)) host) in
              let b = rw outside at a in rw (outside, missing) b
        ]
      ]

  access_prepared :
      (canonicalize : Canonicalize) (ext : InnerExtension) (access : Access) (raw normalized : Text)
      (state : State client codec)
      → prepare_path raw ≡ ok normalized
      → ensure_access client codec canonicalize ext access raw state
        ≡ ensure_resolved client codec ext access (resolve_for_access canonicalize normalized) state
  unfolding ensure_access
  access_prepared canonicalize ext access raw normalized state e = rw (e, ensure_access) refl

  -- Once a path was let through, and the root of its permission is not the empty path, the same
  -- access succeeds again with the same path, asks the host nothing and changes nothing, as long as
  -- the file system resolves the path in the same way.
  pub ensure_access_again :
      (canonicalize : Canonicalize) (ext : InnerExtension) (access : Access) (raw path : Text)
      (state : State client codec)
      → (ensure_access client codec canonicalize ext access raw state).0 ≡ ok path
      → permission_root access path ≢ []
      → ensure_access client codec canonicalize ext access raw
          (ensure_access client codec canonicalize ext access raw state).1
        ≡ (ok path, (ensure_access client codec canonicalize ext access raw state).1)
  unfolding Opened ensure_access
  ensure_access_again canonicalize ext access raw path (s, host) done n =
      elim (Result-cases (prepare_path raw)) [
        | inl (normalized, e) ↦
            let resolved = resolve_for_access canonicalize normalized in
            let run = λ (st : State client codec).
              access_prepared canonicalize ext access raw normalized st e in
            let one = run (s, host) in
            let st = (ensure_resolved client codec ext access resolved (s, host)).1 in
            let (same, opened) =
              ensure_resolved-Opened ext access resolved s host path
                (sym (ap (λ r. r.0) one) ∙ done) n in
            run (ensure_access client codec canonicalize ext access raw (s, host)).1
            ∙ ap (λ r. ensure_resolved client codec ext access resolved r.1) one
            ∙ let_through ext access resolved st.0 st.1 opened
            ∙ ap (λ t. (ok t, st)) (sym same)
            ∙ ap (λ r. (ok path, r.1)) (sym one)
        | inr (x, e) ↦ let refused = rw (e, ensure_access) at done in absurd (cc refused)
      ]
