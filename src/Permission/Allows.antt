-- ===== src/Permission/Allows.antt =====
-- `allows` is a preorder on the permissions that can be granted.
use dion_runtime.Base.{
  ◌≡◌, ◌↔◌, refl, sym, subst, Bool, true, false, not, ◌&&◌, ◌||◌, ◌==◌, ◌≢◌, ◌⊎◌, inl, inr, List,
  [], ◌++◌, arith, Text, String, contains, is_prefix, bool_eq, list_beq_iff, nat_eq, list_eq,
  string_eq,
}
use dion_runtime.Base.Prefix.{
  is_prefix_refl, is_prefix_trans, is_prefix-append, rest_of_prefix, contains-all, all_of_contains,
  all-contains_refl, all-contains_trans,
}
use dion_runtime.UnixPath.{Component, components, component_eq, starts_with}
use dion_runtime.Permission.{Permission, storage, network, action_popup, arbitrary_network, allows}

-- A storage permission whose path is empty grants nothing; all others can be granted.
abbrev pub IsGrantable : Permission → Type 0
IsGrantable (storage path write) = path ≢ []
IsGrantable _ = Unit

pub starts_with_trans :
    (a b c : Text) → starts_with a b ≡ true → starts_with b c ≡ true → starts_with a c ≡ true
unfolding starts_with
starts_with_trans a b c h k = is_prefix_trans (components c) (components b) (components a) k h

-- Every permission that can be granted covers itself.
pub allows_refl : (p : Permission) → IsGrantable p → allows p p ≡ true
unfolding allows starts_with
allows_refl (storage path write) h =
    ground (arith, list_beq_iff path [], is_prefix_refl (components path))
allows_refl (network ds) h = all-contains_refl ds
allows_refl action_popup h = refl
allows_refl arbitrary_network h = refl

-- What a permission covers, and what that covers in turn, the first permission covers.
pub allows_trans : (a b c : Permission) → allows a b ≡ true → allows b c ≡ true → allows a c ≡ true
unfolding allows
allows_trans (storage p w) (storage q v) (storage r u) h k = ground (arith, starts_with_trans r q p)
allows_trans (network ds) (network es) (network fs) h k = all-contains_trans ds es fs h k
allows_trans arbitrary_network b (network fs) h k = refl
allows_trans arbitrary_network arbitrary_network arbitrary_network h k = refl
allows_trans action_popup action_popup action_popup h k = refl
allows_trans a b c h k = ground arith

-- When a permission covers another. A directory is named by a path that is not empty; it covers the
-- paths of the files below it, for writing only if it may be written itself. A list of domains covers
-- the lists of some of them, and arbitrary network access covers every list.
abbrev pub Covers : Permission → Permission → Type 0
Covers (storage p w) (storage q v) =
    (p ≢ [])
    × ((below : List Component) × (components q ≡ components p ++ below))
    × ((w ≡ true) ⊎ (v ≡ false))
Covers (network ds) (network es) = (d : String) → (contains es d && not (contains ds d)) ≡ false
Covers action_popup action_popup = Unit
Covers arbitrary_network (network es) = Unit
Covers arbitrary_network arbitrary_network = Unit
Covers _ _ = ⊥

write_allowed : (w v : Bool) → (w || w == v) ≡ true → (w ≡ true) ⊎ (v ≡ false)
write_allowed true v h = inl refl
write_allowed false false h = inr refl
write_allowed false true h = absurd (cc h)

storage-Covers :
    (p q : Text) (w v : Bool)
    → allows (storage p w) (storage q v) ≡ true
    → Covers (storage p w) (storage q v)
unfolding allows starts_with
storage-Covers p q w v h = (
  ground (arith, list_beq_iff p []),
  rest_of_prefix (components p) (components q) (ground arith),
  write_allowed w v (ground arith),
)

storage_of_Covers :
    (p q : Text) (w v : Bool)
    → Covers (storage p w) (storage q v)
    → allows (storage p w) (storage q v) ≡ true
unfolding allows starts_with
storage_of_Covers p q w v (filled, (below, e), write) =
    let start : is_prefix (components p) (components q) ≡ true =
      subst (λ c. is_prefix (components p) c ≡ true) (sym e)
        (is_prefix-append (components p) below) in
    let named : (p == []) ≡ false = ground (arith, list_beq_iff p [], filled) in
    rw (named, start) (elim write [ inl can ↦ rw can refl | inr reads ↦ rw reads (ground arith) ])

-- `allows` answers true exactly where the permission covers the other, as `Covers` says.
pub allows-Covers : (a b : Permission) → (allows a b ≡ true) ↔ Covers a b
unfolding allows
allows-Covers (storage p w) (storage q v) = (storage-Covers p q w v, storage_of_Covers p q w v)
allows-Covers (network ds) (network es) = (
  λ h d. ground (arith, contains-all (contains ds) es d h),
  λ h. all_of_contains (contains ds) es (λ d k. ground (arith, h d)),
)
allows-Covers action_popup action_popup = (λ h. tt, λ h. refl)
allows-Covers arbitrary_network (network es) = (λ h. tt, λ h. refl)
allows-Covers arbitrary_network arbitrary_network = (λ h. tt, λ h. refl)
allows-Covers a b = (λ h. absurd (cc h), λ h. absurd h)
