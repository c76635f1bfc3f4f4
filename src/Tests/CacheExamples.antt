-- ===== src/Tests/CacheExamples.antt =====
-- The theorems on the cache at concrete inputs.
use dion_runtime.Base.{
  ◌≡◌, ◌≢◌, refl, true, false, none, some, [], ◌∷◌, arith, ok, codes, string_eq, ok_injective,
  subst, Text, ℕ,
}
use dion_runtime.Base.Maps.{lookup, insert, remove, IsDistinct}
use dion_runtime.Cache.Types.{
  CacheEntryMeta, CachePolicy, json, Index, Now, is_past, is_expired, entry_file, with_extension,
  duration_to_ms,
}
use dion_runtime.Cache.Handle.{
  State, validate_key, ensure_loaded, write_atomic, next_tick, write_index, remove_entry_files,
  parse_index,
}
use dion_runtime.Cache.Evict.{total_size, evict_entries, collect_evictions}
use dion_runtime.Cache.Evicts.{Limits, MeetsEntries, collect_evictions-Limits}
use dion_runtime.Cache.Ops.{set, get, delete}
use dion_runtime.Cache.Sound.{IsSound, IsGood, IsGood-nil}
use dion_runtime.Cache.Triples.{Ensures}
use dion_runtime.Cache.Removes.{Absent}
use dion_runtime.Cache.History.{run, Call}
use dion_runtime.Cache.Histories.{run-IsSound}
use dion_runtime.Cache.Disk.{WritesAtomically, write_atomic_lem}
use dion_runtime.Cache.Gets.{get-set, set-MeetsEntries, get-delete, get_expired}
use dion_runtime.Tests.MemoryPlatform.{
  memory, memory_files, memory_free, values-IsFaithful, index-IsFaithful,
}

abbrev policy : CachePolicy
policy = record { default_ttl = none; max_entries = some 2; max_bytes = some 100 }

abbrev fresh : State memory
fresh = (record { policy = policy; index = none; clock = 0 }, λ _. none)

abbrev noon : Now
noon = record { millis = 1000; nanos = 1000000000 }

abbrev later : Now
later = record { millis = 2000; nanos = 2000000000 }

-- A disk with no index file parses to the empty index.
fresh-IsSound : IsSound memory fresh
unfolding parse_index
fresh-IsSound = record {
  memory = tt;
  disk = λ snapshot e. subst (λ t. IsGood codes t.entries) (ok_injective e) (IsGood-nil codes);
}

set_done : (set memory noon "a" (json 7) (some 5000000000) fresh).0 ≡ ok tt
unfolding set validate_key ensure_loaded write_atomic next_tick write_index collect_evictions
    total_size evict_entries insert remove remove_entry_files is_past
set_done = refl

get-set_example :
    Ensures
      (λ r s'. r ≡ some (json 7))
      (λ _. true ≡ true)
      (get memory later "a" true (set memory noon "a" (json 7) (some 5000000000) fresh).1)
unfolding is_past duration_to_ms
get-set_example =
    get-set memory memory_files index-IsFaithful noon later "a" (json 7) (some 5000000000) true
      fresh memory_free values-IsFaithful fresh-IsSound set_done refl

set-MeetsEntries_example :
    (ix : Index) × ((set memory noon "a" (json 7) (some 5000000000) fresh).1.0.index ≡ some ix)
    × (lookup "a" ix ≢ none)
    × MeetsEntries (set memory noon "a" (json 7) (some 5000000000) fresh).1.0.policy.max_entries ix
set-MeetsEntries_example =
    set-MeetsEntries memory memory_files index-IsFaithful noon "a" (json 7) (some 5000000000) fresh
      memory_free fresh-IsSound set_done

abbrev filled : State memory
filled = (set memory noon "a" (json 7) (some 500000000) fresh).1

delete_done : (delete memory "a" filled).0 ≡ ok tt
unfolding set validate_key ensure_loaded write_atomic next_tick write_index collect_evictions
    total_size evict_entries insert remove remove_entry_files is_past delete lookup
delete_done = refl

get-delete_example : (get memory later "a" false (delete memory "a" filled).1).0 ≡ ok none
get-delete_example = get-delete memory later "a" false filled delete_done

abbrev meta_a : CacheEntryMeta
meta_a = record {
  hash = codes "a";
  is_binary = false;
  size = 1;
  expires_at_ms = some 1500;
  last_access = 1000000000;
}

abbrev loaded : State memory
loaded =
    (record { policy = policy; index = some (("a", meta_a) ∷ []); clock = 1000000000 }, filled.1)

get_expired_example :
    Ensures
      (λ r s'. (r ≡ none) × Absent memory "a" s')
      (Absent memory "a")
      (get memory later "a" true loaded)
unfolding validate_key lookup is_expired is_past
get_expired_example =
    get_expired memory later "a" true loaded (("a", meta_a) ∷ []) meta_a refl refl refl refl

abbrev entry_of : Text → ℕ → ℕ → CacheEntryMeta
entry_of hash size access = record {
  hash = hash;
  is_binary = true;
  size = size;
  expires_at_ms = none;
  last_access = access;
}

abbrev three : Index
three =
    ("a", entry_of (codes "a") 60 3)
    ∷ ("b", entry_of (codes "b") 30 1)
    ∷ ("c", entry_of (codes "c") 50 2)
    ∷ []

three-IsDistinct : IsDistinct three
unfolding lookup
three-IsDistinct = (refl, (refl, (refl, tt)))

collect_evictions-Limits_example : Limits policy "c" three (collect_evictions policy three "c").0
unfolding total_size
collect_evictions-Limits_example =
    collect_evictions-Limits policy "c" three three-IsDistinct (omega arith)

run-IsSound_example : IsSound memory (
    run memory
      (Call.set noon "a" (json 7) (some 500000000) ∷ Call.get later "a" true ∷ Call.clear ∷ [])
      fresh)
run-IsSound_example = run-IsSound memory memory_files index-IsFaithful _ fresh fresh-IsSound

write_atomic_lem_example :
    WritesAtomically memory
      (entry_file (codes "a"))
      (with_extension (entry_file (codes "a")) (codes "tmp"))
      (7 ∷ [])
      filled.1
      (write_atomic memory (entry_file (codes "a")) (7 ∷ []) filled.1)
write_atomic_lem_example =
    write_atomic_lem memory memory_files (entry_file (codes "a")) (7 ∷ []) filled.1 (λ e. cc e)
