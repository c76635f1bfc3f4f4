-- ===== src/Permission.antt =====
-- rust/core/src/data/permission.rs: the permissions of an extension and when one covers another.
pub mod Allows
pub mod Store
pub mod StoreLaws
use dion_runtime.Base.{
  ℕ, ◌≡◌, ◌↔◌, refl, Bool, true, false, not, ◌&&◌, ◌||◌, List, [], ◌∷◌, arith, Text, String, Eq,
  ◌==◌, all, contains, if◌then◌else◌, nat_eq, bool_eq, string_eq, list_eq, list_beq_iff,
  bool_beq_iff,
}
use dion_runtime.UnixPath.{starts_with}

pub data Permission : Type 0 where
  storage : Text → Bool → Permission
  network : List String → Permission
  action_popup arbitrary_network : Permission

-- `#[derive(PartialEq)]`
abbrev pub permission_beq : Permission → Permission → Bool
permission_beq (storage p w) (storage q v) = p == q && w == v
permission_beq (network ds) (network es) = ds == es
permission_beq action_popup action_popup = true
permission_beq arbitrary_network arbitrary_network = true
permission_beq _ _ = false

pub permission_beq_iff : (a b : Permission) → (permission_beq a b ≡ true) ↔ (a ≡ b)
permission_beq_iff (storage p w) (storage q v) = ground (arith, list_beq_iff p q, bool_beq_iff w v)
permission_beq_iff (network ds) (network es) = ground (arith, list_beq_iff ds es)
permission_beq_iff (storage p w) (network es) = ground arith
permission_beq_iff (storage p w) action_popup = ground arith
permission_beq_iff (storage p w) arbitrary_network = ground arith
permission_beq_iff (network ds) (storage q v) = ground arith
permission_beq_iff (network ds) action_popup = ground arith
permission_beq_iff (network ds) arbitrary_network = ground arith
permission_beq_iff action_popup (storage q v) = ground arith
permission_beq_iff action_popup (network es) = ground arith
permission_beq_iff action_popup action_popup = ground arith
permission_beq_iff action_popup arbitrary_network = ground arith
permission_beq_iff arbitrary_network (storage q v) = ground arith
permission_beq_iff arbitrary_network (network es) = ground arith
permission_beq_iff arbitrary_network action_popup = ground arith
permission_beq_iff arbitrary_network arbitrary_network = ground arith

instance abbrev pub permission_eq : Eq Permission
permission_eq = record { beq = permission_beq; beq_iff = permission_beq_iff }

-- `self.allows(permission)`. An empty base path matches nothing.
unfoldable pub allows : Permission → Permission → Bool
allows (storage self_path self_write) (storage path write) =
    if self_path == []
    then false
    else starts_with path self_path && (self_write || self_write == write)
allows (network self_domain) (network domains) = all (contains self_domain) domains
allows action_popup action_popup = true
allows arbitrary_network (network _) = true
allows arbitrary_network arbitrary_network = true
allows _ _ = false
