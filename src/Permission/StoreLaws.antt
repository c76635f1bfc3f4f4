-- ===== src/Permission/StoreLaws.antt =====
-- What the permission store of rust/core/src/store/permission.rs grants, keeps and persists.
use dion_runtime.Base.{
  ◌≡◌, refl, Bool, true, false, ◌&&◌, ◌||◌, Option, List, [], ◌∷◌, ◌++◌, arith, Text, ◌==◌,
  any-append, any_mono, contains, Bool-cases, Result, ok, err, Result-cases, is_blank, inl, inr,
  filter, if◌then◌else◌,
}
use dion_runtime.Client.{Client, Codec, Fault, IsPersistent, IsFaithful, IsNeverBlank}
use dion_runtime.Permission.{Permission, permission_eq, permission_beq_iff, allows}
use dion_runtime.Permission.Allows.{IsGrantable, allows_refl, allows_trans}
use dion_runtime.Permission.Store.{
  PermissionStore, has_permission, grant, remove_permission, new, answered, persist, save_state,
  request_permission, permission_storage_key,
}

-- A store that holds `p` holds all that `p` covers.
has_of_allows :
    (s : PermissionStore) (p q : Permission)
    → has_permission s p ≡ true
    → allows p q ≡ true
    → has_permission s q ≡ true
unfolding has_permission
has_of_allows s p q h a =
    any_mono (λ r. allows r p) (λ r. allows r q) s.permissions (λ r k. allows_trans r p q k a) h

-- After `grant p` the store allows what it allowed before and what `p` covers, and nothing else,
-- also where `grant` leaves the store alone.
pub has_permission-grant :
    (s : PermissionStore) (p q : Permission)
    → has_permission (grant s p) q ≡ (has_permission s q || allows p q)
unfolding grant
has_permission-grant s p q = elim (Bool-cases (has_permission s p)) [
  | inl old ↦ rw old (ground (arith, has_of_allows s p q))
  | inr new ↦
      rw new (
        unfold has_permission in
        ground (arith, any-append (λ r. allows r q) s.permissions (p ∷ [])))
]

contains-filter :
    (f : Permission → Bool) (ps : List Permission) (q : Permission)
    → contains (filter f ps) q ≡ (contains ps q && f q)
contains-filter f [] q = refl
contains-filter f (p ∷ ps) q = ground (arith, permission_beq_iff q p, contains-filter f ps q)

-- `remove_permission p` keeps of the stored permissions exactly those that equal `p`, and drops
-- every other one.
pub contains-remove_permission :
    (s : PermissionStore) (p q : Permission)
    → contains (remove_permission s p).permissions q ≡ (contains s.permissions q && (q == p))
unfolding remove_permission
contains-remove_permission s p q = contains-filter (λ item. item == p) s.permissions q

-- The store after a request, by the answer. With `true`, it allows what it allowed before and what
-- `p` covers, `p` included. With `false` or an error, `p` was not held, and the store is what it was.
abbrev pub After : PermissionStore → Permission → Result Fault Bool → PermissionStore → Type 0
After s p (ok true) s' =
    (has_permission s' p ≡ true)
    × ((q : Permission) → has_permission s' q ≡ (has_permission s q || allows p q))
After s p (ok false) s' = (s' ≡ s) × (has_permission s p ≡ false)
After s p (err e) s' = (s' ≡ s) × (has_permission s p ≡ false)

-- What a request does, where the host's prompt would answer and leave the host as `prompted` says:
-- a permission that is held is granted without a prompt, and for any other the answer is the host's.
pub record Answers {H : Type 0} (s : PermissionStore) (p : Permission) (host : H)
    (prompted : Result Fault Bool × H) (r : Result Fault Bool × PermissionStore × H) : Type 0 where
  pub answer : (r.0, r.2) ≡ (if has_permission s p then (ok true, host) else prompted)
  pub after : After s p r.0 r.1

allows_more :
    (s : PermissionStore) (p q : Permission)
    → has_permission (record s { permissions = s.permissions ++ p ∷ [] }) q
      ≡ (has_permission s q || allows p q)
unfolding has_permission
allows_more s p q = ground (arith, any-append (λ r. allows r q) s.permissions (p ∷ []))

module _ (client : Client Permission) where
  open client use {Host}

  answered-After :
      (s : PermissionStore) (p : Permission) (r : Result Fault Bool × Host)
      → IsGrantable p
      → has_permission s p ≡ false
      → After s p (answered client s p r).0 (answered client s p r).1
  answered-After s p (err e, host) g h = (refl, h)
  answered-After s p (ok false, host) g h = (refl, h)
  answered-After s p (ok true, host) g h =
      (ground (arith, allows_more s p p, allows_refl p g), allows_more s p)

  answered_lem :
      (s : PermissionStore) (p : Permission) (r : Result Fault Bool × Host)
      → ((answered client s p r).0, (answered client s p r).2) ≡ r
  answered_lem s p (err e, host) = refl
  answered_lem s p (ok false, host) = refl
  answered_lem s p (ok true, host) = refl

  -- A request for a permission that can be granted: where the store holds the permission, the
  -- answer is true and the host is not asked; otherwise the answer is the host's. With true the
  -- store then allows the permission, what it covers and what it allowed before, and no more; with
  -- false or an error the store is unchanged, and did not hold the permission.
  pub request_permission-Answers :
      (s : PermissionStore) (p : Permission) (msg : Option Text) (host : Host)
      → IsGrantable p
      → Answers s p host
          (client.request_permission p msg host)
          (request_permission client s p msg host)
  unfolding request_permission
  request_permission-Answers s p msg host g = elim (Bool-cases (has_permission s p)) [
    | inl old ↦ record {
      answer = rw old refl;
      after = rw old (old, λ q. ground (arith, has_of_allows s p q));
    }
    | inr new ↦ record {
      answer = rw new (answered_lem s p (client.request_permission p msg host));
      after = rw new (answered-After s p (client.request_permission p msg host) g new);
    }
  ]

module _ (client : Client Permission) (codec : Codec (List Permission)) where
  open client use {Host}

  new_of_load :
      (host : Host) (text : Text) (ps : List Permission)
      → client.load_data_secure permission_storage_key host ≡ ok text
      → is_blank text ≡ false
      → codec.from_str text ≡ ok ps
      → new client codec host ≡ record { permissions = ps }
  unfolding new
  new_of_load host text ps loaded full parsed = ground arith

  -- With a host that keeps what it stores and a faithful codec that writes no blank text: once `save_state` has succeeded, a
  -- store loaded afresh from that host is the store that was saved.
  pub new-save_state :
      (s : PermissionStore) (host : Host)
      → IsPersistent client
      → IsFaithful codec
      → IsNeverBlank codec
      → (save_state client codec s host).0 ≡ ok tt
      → new client codec (save_state client codec s host).1 ≡ s
  unfolding save_state new
  new-save_state s host keeps faithful filled saved =
      elim (Result-cases (codec.to_string s.permissions)) [
        | inl (text, e) ↦
            let stored = rw (e, persist) at saved in
            rw (e, persist)
              (new_of_load (client.store_data_secure permission_storage_key text host).1 text
                s.permissions (keeps.load-store_secure _ text host stored)
                (filled.not_blank _ text e) (faithful.round_trip _ text e))
        | inr (c, e) ↦ cc (rw (e, persist) at saved)
      ]
