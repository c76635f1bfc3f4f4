-- ===== src/Cache/Manager.antt =====
-- `CacheManager` of rust/dion_extension/src/cache.rs: the registry of the open handles. A handle is
-- shared by all who opened its name, so that the model names a handle by its cache's name.
use dion_runtime.Base.{
  ◌≡◌, ◌≢◌, refl, Option, none, some, List, [], ◌∷◌, arith, String, string_eq, Result, ok, err,
  Result-cases, inl, inr,
}
use dion_runtime.Base.Maps.{
  lookup, insert, IsDistinct, lookup-insert, lookup-insert_self, insert-IsDistinct,
}
use dion_runtime.Cache.Types.{CachePolicy, CacheError}
use dion_runtime.Cache.Handle.{CacheInner, validate_name}

pub record CacheManager : Type 0 where
  pub handles : List (String × CacheInner)

abbrev pub new : CacheManager
new = record { handles = [] }

-- The handle that `open` leaves: the existing one under the new policy, or a new one.
abbrev pub opened : CachePolicy → Option CacheInner → CacheInner
opened policy none = record { policy = policy; index = none; clock = 0 }
opened policy (some existing) = record existing { policy = policy }

unfoldable pub open_cache :
    String → CachePolicy → CacheManager → Result CacheError (Unit {0}) × CacheManager
open_cache name policy m = elim (validate_name name) [
  | err e ↦ (err e, m)
  | ok _ ↦
      (ok tt, record m { handles = insert name (opened policy (lookup name m.handles)) m.handles })
]

abbrev pub reset : CacheInner → CacheInner
reset inner = record inner { index = none }

abbrev pub reset_all : List (String × CacheInner) → List (String × CacheInner)
reset_all [] = []
reset_all ((name, inner) ∷ handles) = (name, reset inner) ∷ reset_all handles

-- `remove_dir_all(root)`, its error dropped, is a function of the disk.
unfoldable pub clear_all {ℓ} :
    {Root : Type ℓ} → (Root → Root) → CacheManager → Root → CacheManager × Root
clear_all remove_root m root = (record m { handles = reset_all m.handles }, remove_root root)

abbrev pub handle : String → CacheManager → Option CacheInner
handle name m = lookup name m.handles

abbrev pub map_handle : (CacheInner → CacheInner) → Option CacheInner → Option CacheInner
map_handle f none = none
map_handle f (some inner) = some (f inner)

-- The handle under a policy, by the handle that there was: it keeps its index and its clock, and a
-- new one has no index loaded and starts its clock at 0.
abbrev pub IsUnder : CachePolicy → Option CacheInner → CacheInner → Type 0
IsUnder policy none c = (c.policy ≡ policy) × (c.index ≡ none) × (c.clock ≡ 0)
IsUnder policy (some old) c = (c.policy ≡ policy) × (c.index ≡ old.index) × (c.clock ≡ old.clock)

opened-IsUnder :
    (policy : CachePolicy) (old : Option CacheInner) → IsUnder policy old (opened policy old)
opened-IsUnder policy none = (refl, refl, refl)
opened-IsUnder policy (some old) = (refl, refl, refl)

-- What an `open` of a valid name does: the name has the handle it had, under the new policy, or a
-- new one, and no other name's handle changes.
pub record Opens (name : String) (policy : CachePolicy) (m m' : CacheManager) : Type 0 where
  pub shared : (c : CacheInner) × (handle name m' ≡ some c) × IsUnder policy (handle name m) c
  pub others : (q : String) → name ≢ q → handle q m' ≡ handle q m
  pub distinct : IsDistinct m.handles → IsDistinct m'.handles

-- An `open` that succeeded gives the name the handle it had, with the index and the clock it had,
-- under the new policy, or else a new handle under that policy, with no index loaded and its clock
-- at 0; it changes no other handle, and no name has two handles if none had before.
pub open_cache-Opens :
    (name : String) (policy : CachePolicy) (m : CacheManager)
    → (open_cache name policy m).0 ≡ ok tt
    → Opens name policy m (open_cache name policy m).1
unfolding open_cache
open_cache-Opens name policy m done = elim (Result-cases (validate_name name)) [
  | inl (a, e) ↦
      rw (e, open_cache)
        (record {
          shared = (
            opened policy (lookup name m.handles),
            lookup-insert_self name (opened policy (lookup name m.handles)) m.handles,
            opened-IsUnder policy (lookup name m.handles),
          );
          others = λ q n. ground (
            arith,
            lookup-insert name q (opened policy (lookup name m.handles)) m.handles,
            string_eq.beq_iff name q,
          );
          distinct = insert-IsDistinct name (opened policy (lookup name m.handles)) m.handles;
        })
  | inr (x, e) ↦ let refused = rw (e, open_cache) at done in absurd (cc refused)
]

lookup-reset_all :
    (name : String) (l : List (String × CacheInner))
    → lookup name (reset_all l) ≡ map_handle reset (lookup name l)
unfolding lookup
lookup-reset_all name [] = refl
lookup-reset_all name ((j, c) ∷ l) = ground (arith, lookup-reset_all name l)

-- `clear_all` keeps every handle with its policy and its clock, and forgets its index, so that
-- the handle's next operation loads the index from the disk again.
pub handle-clear_all {ℓ} :
    {Root : Type ℓ} (remove_root : Root → Root) (m : CacheManager) (root : Root) (name : String)
    → handle name (clear_all remove_root m root).0 ≡ map_handle reset (handle name m)
unfolding clear_all
handle-clear_all remove_root m root name = lookup-reset_all name m.handles
