-- ===== src/Cache/Evict.antt =====
-- `collect_evictions_locked` of rust/dion_extension/src/cache.rs.
use dion_runtime.Base.{
  ℕ, zero, suc, ◌+◌, ◌-◌, ◌%◌, true, false, not, Option, none, some, List, [], ◌∷◌, ◌++◌, Text,
  String, ◌==◌, string_eq, length, filter, leb, ltb, if◌then◌else◌, map,
}
use dion_runtime.Base.Maps.{remove, lookup}
use dion_runtime.Cache.Types.{CachePolicy, CacheEntryMeta, Index, u64_mod}

-- `iter().filter(|(key, _)| key != keep)`
abbrev pub others : String → Index → Index
others keep index = filter (λ e. not (e.0 == keep)) index

-- `min_by_key(|(_, meta)| meta.last_access)`: the first of the least.
unfoldable pub oldest : Index → Option (String × CacheEntryMeta)
oldest [] = none
oldest (e ∷ es) = elim (oldest es) [
  | none ↦ some e
  | some e' ↦ if ltb e'.1.last_access e.1.last_access then some e' else some e
]

-- The `while index.len() > max_entries` loop; each round removes an entry, so the length of the
-- index is fuel enough.
unfoldable pub evict_entries :
    ℕ → ℕ → String → Index → List (String × Text) → Index × List (String × Text)
evict_entries zero max_entries keep index evicted = (index, evicted)
evict_entries (suc fuel) max_entries keep index evicted = elim (ltb max_entries (length index)) [
  | false ↦ (index, evicted)
  | true ↦ elim (oldest (others keep index)) [
    | none ↦ (index, evicted)
    | some victim ↦
        evict_entries fuel max_entries keep (remove victim.0 index)
          (evicted ++ (victim.0, victim.1.hash) ∷ [])
  ]
]

-- `index.values().map(|meta| meta.size).sum()`
unfoldable pub total_size : Index → ℕ
total_size [] = 0
total_size (e ∷ es) = e.1.size + total_size es

-- `(key, last_access, size)`
pub record Candidate : Type 0 where
  pub key : String
  pub access : ℕ
  pub size : ℕ

abbrev pub candidate : String × CacheEntryMeta → Candidate
candidate e = record { key = e.0; access = e.1.last_access; size = e.1.size }

-- `order.sort_by_key(|(_, access, _)| *access)`, which is stable.
unfoldable pub insert_candidate : Candidate → List Candidate → List Candidate
insert_candidate c [] = c ∷ []
insert_candidate c (d ∷ ds) =
    let rest = insert_candidate c ds in if leb c.access d.access then c ∷ d ∷ ds else d ∷ rest

unfoldable pub sort_by_access : List Candidate → List Candidate
unfolding insert_candidate
sort_by_access [] = []
sort_by_access (c ∷ cs) = insert_candidate c (sort_by_access cs)

-- `if let Some(meta) = index.remove(&key) { evicted.push((key, meta.hash)) }`
abbrev pub push_removed :
    String → Option CacheEntryMeta → List (String × Text) → List (String × Text)
push_removed key none evicted = evicted
push_removed key (some meta) evicted = evicted ++ (key, meta.hash) ∷ []

-- The `for (key, _, size) in order` loop.
unfoldable pub evict_bytes :
    ℕ → ℕ → List Candidate → Index → List (String × Text) → Index × List (String × Text)
evict_bytes max_bytes total [] index evicted = (index, evicted)
evict_bytes max_bytes total (c ∷ order) index evicted = elim (leb total max_bytes) [
  | true ↦ (index, evicted)
  | false ↦
      evict_bytes max_bytes ((total + u64_mod - c.size) % u64_mod) order (remove c.key index)
        (push_removed c.key (lookup c.key index) evicted)
]

unfoldable pub limit_entries :
    CachePolicy → String → Index × List (String × Text) → Index × List (String × Text)
limit_entries policy keep (index, evicted) = elim policy.max_entries [
  | none ↦ (index, evicted)
  | some max_entries ↦ evict_entries (length index) max_entries keep index evicted
]

unfoldable pub limit_bytes :
    CachePolicy → String → Index × List (String × Text) → Index × List (String × Text)
limit_bytes policy keep (index, evicted) = elim policy.max_bytes [
  | none ↦ (index, evicted)
  | some max_bytes ↦
      let total = total_size index % u64_mod in
      if ltb max_bytes total
      then evict_bytes max_bytes total (sort_by_access (map candidate (others keep index))) index
          evicted
      else (index, evicted)
]

-- The index after the evictions, and the evicted keys with their hashes.
unfoldable pub collect_evictions : CachePolicy → Index → String → Index × List (String × Text)
unfolding limit_entries limit_bytes
collect_evictions policy index keep =
    limit_bytes policy keep (limit_entries policy keep (index, []))
