-- ===== src/Tests/MemoryPlatform.antt =====
-- A platform in memory, which meets what the cache of rust/dion_extension/src/cache.rs relies on: it
-- is used by the examples alone. Its codec of the index writes indices with the one key "a" at most.
use Prim.Native.Char.{code}
use text.Mathlib.TextEquality.{Char-path}
use dion_runtime.Base.{
  ℕ, zero, suc, ◌≡◌, ◌≢◌, ◌↔◌, ◌⊎◌, subst, refl, sym, ◌∙◌, Bool, true, false, ◌&&◌, Option, none,
  some, List, [], ◌∷◌, arith, Text, String, ◌==◌, nat_eq, string_eq, list_eq, option_eq,
  list_beq_iff, option_beq_iff, inl, inr, Result, ok, err, codes, if◌then◌else◌, Bool-cases,
}
use dion_runtime.Client.{Fault, io_fault, json_fault, IsFaithful}
use dion_runtime.Cache.Types.{
  CacheEntryMeta, FileName, CachePath, in_dir, in_entries, IndexSnapshot, Platform, index_version,
}
use dion_runtime.Cache.Disk.{IsFileSystem}
use dion_runtime.Cache.Writes.{IsCollisionFree}

abbrev name_beq : FileName → FileName → Bool
name_beq a b = a.stem == b.stem && a.extension == b.extension

abbrev path_beq : CachePath → CachePath → Bool
path_beq (in_dir a) (in_dir b) = name_beq a b
path_beq (in_entries a) (in_entries b) = name_beq a b
path_beq _ _ = false

path_beq_iff : (a b : CachePath) → (path_beq a b ≡ true) ↔ (a ≡ b)
path_beq_iff (in_dir a) (in_dir b) =
    ground (arith, list_beq_iff a.stem b.stem, option_beq_iff a.extension b.extension)
path_beq_iff (in_entries a) (in_entries b) =
    ground (arith, list_beq_iff a.stem b.stem, option_beq_iff a.extension b.extension)
path_beq_iff (in_dir a) (in_entries b) = ground arith
path_beq_iff (in_entries a) (in_dir b) = ground arith

abbrev pub Files : Type 0
Files = CachePath → Option Text

abbrev update : CachePath → Option Text → Files → Files
update path t d q = if path_beq q path then t else d q

abbrev found : Option Text → Result Fault Text
found none = err io_fault
found (some t) = ok t

abbrev rename_found : CachePath → CachePath → Option Text → Files → Result Fault (Unit {0}) × Files
rename_found a b none d = (err io_fault, d)
rename_found a b (some t) d = (ok tt, update b (some t) (update a none d))

abbrev remove_found : CachePath → Option Text → Files → Result Fault (Unit {0}) × Files
remove_found path none d = (err io_fault, d)
remove_found path (some t) d = (ok tt, update path none d)

abbrev flag : Bool → ℕ
flag true = 1
flag false = 0

abbrev is_set : ℕ → Bool
is_set zero = false
is_set (suc _) = true

abbrev put_option : Option ℕ → ℕ
put_option none = 0
put_option (some n) = suc n

abbrev get_option : ℕ → Option ℕ
get_option zero = none
get_option (suc n) = some n

abbrev put_meta : CacheEntryMeta → Text
put_meta m = flag m.is_binary ∷ m.size ∷ put_option m.expires_at_ms ∷ m.last_access ∷ []

abbrev written : Text → Result Fault Text
written t = ok t

abbrev put_entry : String → CacheEntryMeta → Result Fault Text
put_entry k m = if k == "a" && m.hash == codes "a" then written (put_meta m) else err json_fault

abbrev put_entries : List (String × CacheEntryMeta) → Result Fault Text
put_entries [] = ok (0 ∷ [])
put_entries ((k, m) ∷ []) = put_entry k m
put_entries _ = err json_fault

abbrev put_snapshot : IndexSnapshot → Result Fault Text
put_snapshot s = if s.version == index_version then put_entries s.entries else err json_fault

abbrev get_snapshot : Text → Result Fault IndexSnapshot
get_snapshot (_ ∷ []) = ok (record { version = index_version; entries = [] })
get_snapshot (b ∷ size ∷ e ∷ access ∷ []) = ok (record {
  version = index_version;
  entries =
      (
        "a",
        record {
          hash = codes "a";
          is_binary = is_set b;
          size = size;
          expires_at_ms = get_option e;
          last_access = access;
        },
      )
      ∷ [];
})
get_snapshot _ = err json_fault

abbrev get_number : Text → Result Fault ℕ
get_number (n ∷ []) = ok n
get_number _ = err json_fault

abbrev pub memory : Platform
memory = record {
  Json = ℕ;
  value_codec = record { to_string = λ n. ok (n ∷ []); from_str = get_number };
  index_codec = record { to_string = put_snapshot; from_str = get_snapshot };
  key_hash = codes;
  Disk = Files;
  read = λ path d. found (d path);
  write = λ path t d. (ok tt, update path (some t) d);
  rename = λ a b d. rename_found a b (d a) d;
  remove_file = λ path d. remove_found path (d path) d;
  create_entries_dir = λ d. (ok tt, d);
  remove_cache_dir = λ d. (ok tt, λ _. none);
}

pub values-IsFaithful : IsFaithful memory.value_codec
values-IsFaithful = record { round_trip = λ n t e. cc }

is_set-flag : (b : Bool) → is_set (flag b) ≡ b
is_set-flag true = refl
is_set-flag false = refl

get_option-put_option : (o : Option ℕ) → get_option (put_option o) ≡ o
get_option-put_option none = refl
get_option-put_option (some n) = refl

not_written : (t : Text) → ¬ (written t ≡ err json_fault)
not_written t e = cc e

known_entry :
    (k : String) (m : CacheEntryMeta) (t : Text)
    → k ≡ "a"
    → m.hash ≡ codes "a"
    → written (put_meta m) ≡ ok t
    → get_snapshot t ≡ ok (record { version = index_version; entries = (k, m) ∷ [] })
known_entry k m t key hash e =
    let text : put_meta m ≡ t = cc e in
    subst (λ u. get_snapshot u ≡ ok (record { version = index_version; entries = (k, m) ∷ [] }))
      text (cc (key, hash, is_set-flag m.is_binary, get_option-put_option m.expires_at_ms))

entry_faithful :
    (k : String) (m : CacheEntryMeta) (t : Text)
    → put_entry k m ≡ ok t
    → get_snapshot t ≡ ok (record { version = index_version; entries = (k, m) ∷ [] })
entry_faithful k m t e = elim (Bool-cases (k == "a" && m.hash == codes "a")) [
  | inl h ↦
      known_entry k m t (ground (arith, string_eq.beq_iff k "a"))
        (ground (arith, list_beq_iff m.hash (codes "a"))) (sym (rw h refl) ∙ e)
  | inr h ↦ absurd (not_written t (sym e ∙ rw h refl))
]

entries_faithful :
    (entries : List (String × CacheEntryMeta)) (t : Text)
    → put_entries entries ≡ ok t
    → get_snapshot t ≡ ok (record { version = index_version; entries = entries })
entries_faithful [] t e =
    let text : 0 ∷ [] ≡ t = cc e in
    subst (λ u. get_snapshot u ≡ ok (record { version = index_version; entries = [] })) text refl
entries_faithful ((k, m) ∷ []) t e = entry_faithful k m t e
entries_faithful (x ∷ y ∷ r) t e = absurd (not_written t (sym e))

snapshot_faithful :
    (version : ℕ) (entries : List (String × CacheEntryMeta)) (t : Text)
    → put_snapshot (record { version = version; entries = entries }) ≡ ok t
    → get_snapshot t ≡ ok (record { version = version; entries = entries })
snapshot_faithful version entries t e = elim (Bool-cases (version == index_version)) [
  | inl h ↦
      let same : index_version ≡ version = ground (arith, nat_eq.beq_iff version index_version) in
      subst (λ v. get_snapshot t ≡ ok (record { version = v; entries = entries })) same
        (entries_faithful entries t (sym (rw h refl) ∙ e))
  | inr h ↦ absurd (not_written t (sym e ∙ rw h refl))
]

pub index-IsFaithful : IsFaithful memory.index_codec
index-IsFaithful = record { round_trip = λ s t e. snapshot_faithful s.version s.entries t e }

codes_injective : (s t : String) → codes s ≡ codes t → s ≡ t
codes_injective String.[] String.[] h = refl
codes_injective String.[] (String.◌∷◌ c t) h = absurd (cc h)
codes_injective (String.◌∷◌ c s) String.[] h = absurd (cc h)
codes_injective (String.◌∷◌ c s) (String.◌∷◌ d t) h =
    let tails : codes s ≡ codes t = cc h in
    let heads : code c ≡ code d = cc h in cc (Char-path c d heads, codes_injective s t tails)

pub memory_free : IsCollisionFree memory.key_hash
memory_free = codes_injective

read_renamed :
    (a b q : CachePath) (o : Option Text) (d : Files)
    → q ≢ a
    → q ≢ b
    → found ((rename_found a b o d).1 q) ≡ found (d q)
read_renamed a b q none d ha hb = refl
read_renamed a b q (some t) d ha hb = ground (arith, path_beq_iff q a, path_beq_iff q b)

renamed_failed :
    (a b q : CachePath) (o : Option Text) (d : Files) (e : Fault)
    → (rename_found a b o d).0 ≡ err e
    → found ((rename_found a b o d).1 q) ≡ found (d q)
renamed_failed a b q none d e h = refl
renamed_failed a b q (some t) d e h = absurd (cc h)

read_target :
    (a b : CachePath) (o : Option Text) (d : Files)
    → (rename_found a b o d).0 ≡ ok tt
    → found ((rename_found a b o d).1 b) ≡ found o
read_target a b none d h = absurd (cc h)
read_target a b (some t) d h = ground (arith, path_beq_iff b b)

read_others :
    (path q : CachePath) (o : Option Text) (d : Files)
    → q ≢ path
    → found ((remove_found path o d).1 q) ≡ found (d q)
read_others path q none d h = refl
read_others path q (some t) d h = ground (arith, path_beq_iff q path)

read_removed :
    (path : CachePath) (o : Option Text) (d : Files)
    → d path ≡ o
    → (found ((remove_found path o d).1 path) ≡ found (d path))
      ⊎ ((e : Fault) × (found ((remove_found path o d).1 path) ≡ err e))
read_removed path none d h = inl refl
read_removed path (some t) d h = inr (io_fault, ground (arith, path_beq_iff path path))

pub memory_files : IsFileSystem memory
memory_files = record {
  write_frame = λ path q b d h. ground (arith, path_beq_iff q path);
  read-write = λ path b d h. ground (arith, path_beq_iff path path);
  rename_frame = λ a b q d ha hb. read_renamed a b q (d a) d ha hb;
  read-rename = λ a b d h. read_target a b (d a) d h;
  rename_failed = λ a b q d e h. renamed_failed a b q (d a) d e h;
  remove_frame = λ path q d h. read_others path q (d path) d h;
  read-remove = λ path d. read_removed path (d path) d refl;
  create_frame = λ q d. refl;
  read-remove_dir = λ q d. inr (io_fault, refl);
}
