-- ===== src/Mihon/Apk/Cursor.antt =====
-- `Cursor<&[u8]>` with byteorder, as rust/mihon/src/apk/manifest.rs uses it: a position in the bytes.
use dion_runtime.Base.{ℕ, zero, suc, ◌+◌, ◌*◌, ◌^◌, Option, none, some, List, [], ◌∷◌, ok, err}
use dion_runtime.Base.Action.{Action, pure, ◌>>=◌}

pub data XmlError : Type 0 where
  unexpected_eof zero_chunk out_of_fuel : XmlError
  invalid_magic : ℕ → XmlError

-- `data.get(index)`
unfoldable pub get_elem? {ℓ} : {A : Type ℓ} → List A → ℕ → Option A
get_elem? [] n = none
get_elem? (x ∷ xs) zero = some x
get_elem? (x ∷ xs) (suc n) = get_elem? xs n

abbrev pub Cursor : Type 0 → Type 0
Cursor A = Action ℕ XmlError A

-- A loop that collects what each turn reads.
unfoldable pub repeat : {A : Type 0} → ℕ → Cursor A → Cursor (List A)
repeat zero act = pure []
repeat (suc n) act = act >>= λ a. repeat n act >>= λ rest. pure (a ∷ rest)

module _ (bytes : List ℕ) where
  unfoldable pub read_u8 : Cursor ℕ
  unfolding get_elem?
  read_u8 position = elim (get_elem? bytes position) [
    | none ↦ (err unexpected_eof, position)
    | some b ↦ (ok b, position + 1)
  ]

  unfoldable pub read_u16 : Cursor ℕ
  unfolding read_u8
  read_u16 = do low ← read_u8; high ← read_u8; pure (low + high * 2 ^ 8)

  unfoldable pub read_u32 : Cursor ℕ
  unfolding read_u16
  read_u32 = do low ← read_u16; high ← read_u16; pure (low + high * 2 ^ 16)
