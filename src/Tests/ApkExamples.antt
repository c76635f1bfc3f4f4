-- ===== src/Tests/ApkExamples.antt =====
-- The theorems on binary manifests at concrete inputs.
use dion_runtime.Base.{ℕ, ◌≡◌, refl, none, some, List, [], ◌∷◌, ◌++◌, arith, ok, err, codes}
use dion_runtime.Mihon.Apk.Elements.{XmlElement, element, nil, cons}
use dion_runtime.Mihon.Apk.Cursor.{zero_chunk}
use dion_runtime.Mihon.Apk.Manifest.{Lossy, parse, parse_with}
use dion_runtime.Mihon.Apk.Ends.{parse_enough}
use dion_runtime.Mihon.Apk.Nesting.{read_tags, tags_of, read_tags-document}

abbrev lossy : Lossy
lossy = record { from_utf8 = λ b. b; from_utf16 = λ u. u }

abbrev file_header : List ℕ
file_header = 3 ∷ 0 ∷ 8 ∷ 0 ∷ 0 ∷ 0 ∷ 0 ∷ 0 ∷ []

abbrev zero_word : List ℕ
zero_word = 0 ∷ 0 ∷ 0 ∷ 0 ∷ []

-- A pool with the one string "a", as UTF-8.
abbrev pool_chunk : List ℕ
pool_chunk =
    (1 ∷ 0 ∷ 28 ∷ 0 ∷ 36 ∷ 0 ∷ 0 ∷ 0 ∷ [])
    ++ (1 ∷ 0 ∷ 0 ∷ 0 ∷ [])
    ++ zero_word
    ++ (0 ∷ 1 ∷ 0 ∷ 0 ∷ [])
    ++ (32 ∷ 0 ∷ 0 ∷ 0 ∷ [])
    ++ zero_word
    ++ zero_word
    ++ (1 ∷ 1 ∷ b'a' ∷ 0 ∷ [])

-- The tags of the element that the first string names.
abbrev tag_chunks : List ℕ
tag_chunks =
    (2 ∷ 1 ∷ 16 ∷ 0 ∷ 36 ∷ 0 ∷ 0 ∷ 0 ∷ [])
    ++ zero_word
    ++ zero_word
    ++ zero_word
    ++ zero_word
    ++ zero_word
    ++ zero_word
    ++ zero_word
    ++ (3 ∷ 1 ∷ 16 ∷ 0 ∷ 24 ∷ 0 ∷ 0 ∷ 0 ∷ [])
    ++ zero_word
    ++ zero_word
    ++ zero_word
    ++ zero_word

abbrev document : List ℕ
document = file_header ++ pool_chunk ++ tag_chunks

parse_examples :
    (parse lossy document ≡ ok (some (element (codes "a") [] nil)))
    × (parse lossy file_header ≡ ok none)
    × (parse lossy (file_header ++ zero_word ++ zero_word ++ zero_word) ≡ err zero_chunk)
unfolding parse
parse_examples = (refl, refl, refl)

parse_enough_example : parse_with lossy document 500 ≡ parse lossy document
parse_enough_example = parse_enough lossy document 500 (omega arith)

-- An element with two children, one of which has a child.
abbrev tree : XmlElement
tree = element (codes "a") [] (
    cons (element (codes "b") [] (cons (element (codes "a") [] nil) nil))
      (cons (element (codes "c") ((codes "k", codes "v") ∷ []) nil) nil))

read_tags-document_example :
    read_tags (tags_of tree) (record { element_stack = []; root = none })
    ≡ record { element_stack = []; root = some tree }
read_tags-document_example = read_tags-document tree none
