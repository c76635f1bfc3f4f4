-- ===== src/Cache/Handle.antt =====
-- `CacheInner` of rust/dion_extension/src/cache.rs: the state of a cache handle, and its helpers.
use Prim.Native.String.{len}
use dion_runtime.Base.{
  ℕ, ◌+◌, ◌-◌, ◌%◌, Bool, not, ◌||◌, Option, none, some, List, [], ◌∷◌, Text, String, ◌==◌,
  string_eq, list_eq, nat_eq, codes, Result, ok, err, if◌then◌else◌, max, min, ltb, leb, all, ◌&&◌,
}
use dion_runtime.Client.{Fault}
use dion_runtime.Cache.Types.{
  CachePolicy, Index, IndexSnapshot, CachePath, with_extension, index_file, entry_file, CacheError,
  bad_key, bad_name, Now, Platform, snapshot_of, u64_mod, max_key_len, max_name_len,
}
use dion_runtime.Cache.Exec.{Exec, pure, lift, faulty, ◌>>=◌, ◌>>◌}

-- `CacheInner`, without its directory: every path of the model is below it.
pub record CacheInner : Type 0 where
  pub policy : CachePolicy
  pub index : Option Index
  pub clock : ℕ

-- `name.chars().all(...)`
abbrev is_name_char : ℕ → Bool
is_name_char c =
    (leb b'0' c && leb c b'9')
    || (leb b'A' c && leb c b'Z')
    || (leb b'a' c && leb c b'z')
    || c == b'.'
    || c == b'-'
    || c == b'_'

-- `name.len()` and `key.len()` count the bytes of the UTF-8 form, as `len` does.
unfoldable pub validate_name : String → Result CacheError (Unit {0})
validate_name name =
    if name == ""
      || ltb max_name_len (len name)
      || name == "."
      || name == ".."
      || not (all is_name_char (codes name))
    then err bad_name
    else ok tt

unfoldable pub validate_key : String → Result CacheError (Unit {0})
validate_key key = if key == "" || ltb max_key_len (len key) then err bad_key else ok tt

-- One strictly increasing tick: the nanoseconds of the wall clock, or one past the last tick.
unfoldable pub tick_after : Now → ℕ → ℕ
tick_after now current = max (now.nanos % u64_mod) (min (current + 1) (u64_mod - 1))

-- `guard.get_or_insert_with(HashMap::new)`
abbrev pub index_or_empty : Option Index → Index
index_or_empty none = []
index_or_empty (some index) = index

module _ (p : Platform) where
  open p use {
    Json, Disk, value_codec, index_codec, key_hash, read, write, rename, remove_file,
    create_entries_dir,
  }

  -- A handle's state and the disk.
  abbrev pub State : Type 0
  State = CacheInner × Disk

  abbrev pub entry_path : String → CachePath
  entry_path key = entry_file (key_hash key)

  -- A call of the file system, and one whose error is dropped (`.ok()`).
  abbrev pub io : {A : Type 0} → (Disk → Result Fault A × Disk) → Exec State A
  io f (c, disk) = let (r, disk') = f disk in (faulty r, (c, disk'))

  abbrev pub quietly : (Disk → Result Fault (Unit {0}) × Disk) → Exec State (Unit {0})
  quietly f (c, disk) = (ok tt, (c, (f disk).1))

  -- `with_index(f)`
  abbrev pub with_index : {R : Type 0} → (Index → Index × R) → Exec State R
  with_index f (c, disk) =
      let (index', r) = f (index_or_empty c.index) in
      (ok r, (record c { index = some index' }, disk))

  abbrev renamed_over :
      CachePath → CachePath → Result Fault (Unit {0}) × Disk → Result Fault (Unit {0}) × Disk
  renamed_over tmp path (ok _, disk) = (ok tt, disk)
  renamed_over tmp path (err _, disk) = rename tmp path (remove_file path disk).1

  abbrev written :
      CachePath → CachePath → Result Fault (Unit {0}) × Disk → Result Fault (Unit {0}) × Disk
  written tmp path (err e, disk) = (err e, disk)
  written tmp path (ok _, disk) = renamed_over tmp path (rename tmp path disk)

  -- Write beside the file, then rename over it; where that fails, remove the file and rename again.
  unfoldable pub write_atomic : CachePath → Text → Disk → Result Fault (Unit {0}) × Disk
  write_atomic path bytes disk =
      let tmp = with_extension path (codes "tmp") in written tmp path (write tmp bytes disk)

  unfoldable pub write_index : IndexSnapshot → Exec State (Unit {0})
  unfolding write_atomic
  write_index snapshot = do
    bytes ← lift (faulty (index_codec.to_string snapshot))
    io (write_atomic index_file bytes)

  -- What `ensure_loaded` makes of the index file: an unreadable or empty one is an empty index.
  unfoldable pub parse_index : Result Fault Text → Result Fault IndexSnapshot
  parse_index (err _) = ok (snapshot_of [])
  parse_index (ok []) = ok (snapshot_of [])
  parse_index (ok (b ∷ bytes)) = index_codec.from_str (b ∷ bytes)

  abbrev pub read_index : Exec State (Result Fault Text)
  read_index (c, disk) = (ok (read index_file disk), (c, disk))

  abbrev pub set_index : Option Index → Exec State (Unit {0})
  set_index index (c, disk) = (ok tt, (record c { index = index }, disk))

  abbrev pub load_index : Exec State (Unit {0})
  load_index = do
    io create_entries_dir
    found ← read_index
    snapshot ← lift (faulty (parse_index found))
    set_index (some snapshot.entries)

  unfoldable pub ensure_loaded : Exec State (Unit {0})
  unfolding parse_index
  ensure_loaded (c, disk) = elim c.index [
    | some _ ↦ (ok tt, (c, disk))
    | none ↦ load_index (c, disk)
  ]

  -- Under one handle the compare-and-exchange succeeds at once.
  unfoldable pub next_tick : Now → Exec State ℕ
  unfolding tick_after
  next_tick now (c, disk) =
      let next = tick_after now c.clock in (ok next, (record c { clock = next }, disk))

  unfoldable pub remove_entry_files : List (String × Text) → Exec State (Unit {0})
  remove_entry_files [] = pure tt
  remove_entry_files ((_, hash) ∷ entries) =
      quietly (remove_file (entry_file hash)) >> remove_entry_files entries
