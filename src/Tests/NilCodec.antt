-- ===== src/Tests/NilCodec.antt =====
-- A codec that writes the empty list alone, for the examples that save no data.
use dion_runtime.Base.{List, [], ◌∷◌, Text, Result, ok, err, codes}
use dion_runtime.Client.{Fault, json_fault, Codec}

abbrev put_nil : {A : Type 0} → List A → Result Fault Text
put_nil [] = ok (codes "[]")
put_nil (x ∷ l) = err json_fault

abbrev pub nil_codec : (A : Type 0) → Codec (List A)
nil_codec A = record { to_string = put_nil; from_str = λ t. ok [] }
