-- ===== src/Mihon/Apk/Manifest.antt =====
-- `BinaryXmlParser` of rust/mihon/src/apk/manifest.rs, over the lossy decoders of the standard
-- library.
use dion_runtime.Base.{
  ℕ, zero, suc, ◌+◌, ◌*◌, ◌/◌, ◌%◌, ◌^◌, Bool, Option, none, List, [], ◌∷◌, ◌++◌, Text, codes, ◌==◌,
  nat_eq, list_eq, length, ltb, if◌then◌else◌, Result, ok, err,
}
use dion_runtime.Base.Action.{pure, bail, ◌>>=◌}
use dion_runtime.Base.Decimal.{decimal}
use dion_runtime.Base.Maps.{insert}
use dion_runtime.Base.Texts.{unwrap_or}
use dion_runtime.Mihon.Apk.Elements.{XmlElement, element, nil, Nest, start_tag, end_tag}
use dion_runtime.Mihon.Apk.Cursor.{
  XmlError, zero_chunk, out_of_fuel, invalid_magic, get_elem?, Cursor, repeat, read_u8, read_u16,
  read_u32,
}

-- `String::from_utf8_lossy` and `String::from_utf16_lossy`.
pub record Lossy : Type 0 where
  pub from_utf8 : List ℕ → Text
  pub from_utf16 : List ℕ → Text

abbrev chunk_axml_file : ℕ
chunk_axml_file = 0x0003

abbrev chunk_string_pool : ℕ
chunk_string_pool = 0x0001

abbrev chunk_start_tag : ℕ
chunk_start_tag = 0x0102

abbrev chunk_end_tag : ℕ
chunk_end_tag = 0x0103

abbrev type_string : ℕ
type_string = 0x03

abbrev type_int_boolean : ℕ
type_int_boolean = 0x12

-- What the parser knows so far.
pub record Parsed : Type 0 where
  pub string_pool : List Text
  pub nest : Nest

unfoldable pub get_string : List Text → ℕ → Text
unfolding get_elem?
get_string string_pool idx = unwrap_or (get_elem? string_pool idx) []

abbrev bool_text : ℕ → Text
bool_text n = if n == 0 then codes "false" else codes "true"

-- The text of an attribute, by its type; all numbers are printed in decimal.
unfoldable pub attr_text : List Text → ℕ → ℕ → ℕ → Text
unfolding get_string
attr_text pool data_type value_string number =
    if data_type == type_string
    then if value_string == 0xFFFFFFFF then [] else get_string pool value_string
    else if data_type == type_int_boolean
    then bool_text number
    else decimal number

module _ (l : Lossy) (bytes : List ℕ) where
  unfoldable pub read_at : {A : Type 0} → ℕ → Cursor A → Cursor A
  read_at position act _ = act position

  unfoldable pub decode_u8_len : Cursor ℕ
  unfolding read_u8
  decode_u8_len = do
    first ← read_u8 bytes
    (if ltb 0x7F first
        then (read_u8 bytes >>= λ second. pure (first % 2 ^ 7 * 2 ^ 8 + second))
        else pure first)

  unfoldable pub read_utf8_string : Cursor Text
  unfolding decode_u8_len repeat read_u8
  read_utf8_string = do
    char_len ← decode_u8_len
    byte_len ← decode_u8_len
    buf ← repeat byte_len (read_u8 bytes)
    terminator ← read_u8 bytes
    pure (l.from_utf8 buf)

  unfoldable pub utf16_len : Cursor ℕ
  unfolding read_u16
  utf16_len = do
    first ← read_u16 bytes
    (if ltb 0x7FFF first
        then (read_u16 bytes >>= λ second. pure (first % 2 ^ 15 * 2 ^ 16 + second))
        else pure first)

  unfoldable pub read_utf16_string : Cursor Text
  unfolding utf16_len repeat read_u16
  read_utf16_string = do
    len ← utf16_len
    chars ← repeat len (read_u16 bytes)
    terminator ← read_u16 bytes
    pure (l.from_utf16 chars)

  -- The strings that the offsets point at.
  unfoldable pub read_strings : Bool → ℕ → List ℕ → Cursor (List Text)
  unfolding read_utf8_string read_utf16_string read_at
  read_strings is_utf8 start [] = pure []
  read_strings is_utf8 start (offset ∷ offsets) = do
    s ← read_at (start + offset) (if is_utf8 then read_utf8_string else read_utf16_string)
    rest ← read_strings is_utf8 start offsets
    pure (s ∷ rest)

  unfoldable pub parse_string_pool : ℕ → Cursor (List Text)
  unfolding read_u32 repeat read_strings
  parse_string_pool chunk_start = do
    string_count ← read_u32 bytes
    style_count ← read_u32 bytes
    flags ← read_u32 bytes
    strings_start ← read_u32 bytes
    styles_start ← read_u32 bytes
    offsets ← repeat string_count (read_u32 bytes)
    read_strings (flags / 2 ^ 8 % 2 == 1) (chunk_start + strings_start) offsets

  unfoldable pub read_attribute : List Text → Cursor (Text × Text)
  unfolding read_u8 read_u16 read_u32 attr_text
  read_attribute pool = do
    attr_ns ← read_u32 bytes
    attr_name_idx ← read_u32 bytes
    attr_value_string ← read_u32 bytes
    attr_type_size ← read_u16 bytes
    attr_res0 ← read_u8 bytes
    attr_data_type ← read_u8 bytes
    attr_data ← read_u32 bytes
    pure (get_string pool attr_name_idx, attr_text pool attr_data_type attr_value_string attr_data)

  -- Each attribute is inserted in turn.
  abbrev insert_all : List (Text × Text) → List (Text × Text) → List (Text × Text)
  insert_all [] attributes = attributes
  insert_all ((name, value) ∷ rest) attributes = insert_all rest (insert name value attributes)

  unfoldable pub parse_start_tag : List Text → Cursor XmlElement
  unfolding read_u16 read_u32 repeat read_attribute insert
  parse_start_tag pool = do
    line ← read_u32 bytes
    comment ← read_u32 bytes
    ns_idx ← read_u32 bytes
    name_idx ← read_u32 bytes
    attr_start ← read_u16 bytes
    attr_size ← read_u16 bytes
    attr_count ← read_u16 bytes
    id_idx ← read_u16 bytes
    class_idx ← read_u16 bytes
    style_idx ← read_u16 bytes
    attributes ← repeat attr_count (read_attribute pool)
    pure (element (get_string pool name_idx) (insert_all attributes []) nil)

  unfoldable pub skip_end_tag : Cursor (List ℕ)
  unfolding read_u32 repeat
  skip_end_tag = repeat 4 (read_u32 bytes)

  -- What a chunk adds.
  unfoldable pub on_chunk : ℕ → ℕ → Parsed → Cursor Parsed
  unfolding parse_string_pool parse_start_tag skip_end_tag start_tag end_tag
  on_chunk chunk_type chunk_start s =
      if chunk_type == chunk_string_pool
      then (parse_string_pool chunk_start >>= λ strings.
          pure (record s { string_pool = s.string_pool ++ strings }))
      else if chunk_type == chunk_start_tag
      then (parse_start_tag s.string_pool >>= λ e. pure (record s { nest = start_tag e s.nest }))
      else if chunk_type == chunk_end_tag
      then (skip_end_tag >>= λ fields. pure (record s { nest = end_tag s.nest }))
      else pure s

  -- A chunk of size 0 ends the loop; any other leads to the one behind it.
  abbrev pub after_header :
      (ℕ → Parsed → Result XmlError Parsed) → ℕ → Parsed → ℕ × ℕ → ℕ → Result XmlError Parsed
  after_header next chunk_start s (chunk_type, chunk_size) position =
      if chunk_size == 0
      then if ltb position (length bytes) then err zero_chunk else ok s
      else behind (on_chunk chunk_type chunk_start s position).0 (chunk_start + chunk_size)
    where
      behind : Result XmlError Parsed → ℕ → Result XmlError Parsed
      behind (ok s') position' = next position' s'
      behind (err e) position' = err e

  unfoldable pub read_header : Cursor (ℕ × ℕ)
  unfolding read_u16 read_u32
  read_header = do
    chunk_type ← read_u16 bytes
    header_size ← read_u16 bytes
    chunk_size ← read_u32 bytes
    pure (chunk_type, chunk_size)

  abbrev pub with_header :
      (ℕ → Parsed → Result XmlError Parsed)
      → ℕ
      → Parsed
      → Result XmlError (ℕ × ℕ) × ℕ
      → Result XmlError Parsed
  with_header next chunk_start s (ok header, position) =
      after_header next chunk_start s header position
  with_header next chunk_start s (err e, position) = err e

  -- The loop over the chunks; each takes one of the fuel.
  unfoldable pub parse_chunks : ℕ → ℕ → Parsed → Result XmlError Parsed
  unfolding read_header on_chunk
  parse_chunks zero position s = err out_of_fuel
  parse_chunks (suc fuel) position s =
      if ltb position (length bytes)
      then with_header (parse_chunks fuel) position s (read_header position)
      else ok s

  abbrev pub start : Parsed
  start = record { string_pool = []; nest = record { element_stack = []; root = none } }

  abbrev root_of : Result XmlError Parsed → Result XmlError (Option XmlElement)
  root_of (ok s) = ok s.nest.root
  root_of (err e) = err e

  unfoldable pub read_file_header : Cursor (List ℕ)
  unfolding read_u16 read_u32
  read_file_header = do
    magic ← read_u16 bytes
    if magic == chunk_axml_file
        then (read_u16 bytes >>= λ header_size. read_u32 bytes >>= λ file_size. pure [])
        else bail (invalid_magic magic)

  abbrev pub after_file_header :
      (ℕ → Parsed → Result XmlError Parsed)
      → Result XmlError (List ℕ) × ℕ
      → Result XmlError (Option XmlElement)
  after_file_header next (ok h, position) = root_of (next position start)
  after_file_header next (err e, position) = err e

  -- The whole document, with fuel for its chunks.
  unfoldable pub parse_with : ℕ → Result XmlError (Option XmlElement)
  unfolding read_file_header parse_chunks
  parse_with fuel = after_file_header (parse_chunks fuel) (read_file_header 0)

  -- No chunk is empty, so that one fuel for each byte, and one for the end, is enough.
  unfoldable pub parse : Result XmlError (Option XmlElement)
  unfolding parse_with
  parse = parse_with (suc (length bytes))
