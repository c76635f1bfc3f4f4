-- ===== src/Mihon/Apk/Nesting.antt =====
-- The stack of rust/mihon/src/apk/manifest.rs builds the element whose tags it reads.
use dion_runtime.Base.{◌≡◌, refl, sym, ap, ◌∙◌, Option, some, List, [], ◌∷◌, ◌++◌, Text}
use dion_runtime.Mihon.Apk.Elements.{
  XmlElement, element, Children, nil, cons, append, push_child, Nest, start_tag, end_tag,
}

pub data Tag : Type 0 where
  open_tag : Text → List (Text × Text) → Tag
  close_tag : Tag

-- The tags of an element, in the order of a document.
unfoldable mutual
  pub tags_of : XmlElement → List Tag
  tags_of (element name attributes children) =
      open_tag name attributes ∷ (tags_of_children children ++ close_tag ∷ [])

  pub tags_of_children : Children → List Tag
  tags_of_children nil = []
  tags_of_children (cons e es) = tags_of e ++ tags_of_children es

abbrev pub on_tag : Tag → Nest → Nest
on_tag (open_tag name attributes) s = start_tag (element name attributes nil) s
on_tag close_tag s = end_tag s

unfoldable pub read_tags : List Tag → Nest → Nest
read_tags [] s = s
read_tags (t ∷ ts) s = read_tags ts (on_tag t s)

read_tags-append :
    (ts us : List Tag) (s : Nest) → read_tags (ts ++ us) s ≡ read_tags us (read_tags ts s)
unfolding read_tags
read_tags-append [] us s = refl
read_tags-append (t ∷ ts) us s = read_tags-append ts us (on_tag t s)

append_assoc : (xs ys zs : Children) → append (append xs ys) zs ≡ append xs (append ys zs)
unfolding append
append_assoc nil ys zs = refl
append_assoc (cons x xs) ys zs = ap (cons x) (append_assoc xs ys zs)

append_nil : (xs : Children) → append xs nil ≡ xs
unfolding append
append_nil nil = refl
append_nil (cons x xs) = ap (cons x) (append_nil xs)

-- A nest whose innermost open element has these children.
abbrev inside : Text → List (Text × Text) → Children → List XmlElement → Option XmlElement → Nest
inside name attributes children stack root = record {
  element_stack = element name attributes children ∷ stack;
  root = root;
}

mutual
  unfolding tags_of read_tags start_tag end_tag push_child append

  read_tags-tags_of :
      (e : XmlElement) (s : Nest) → read_tags (tags_of e) s ≡ end_tag (start_tag e s)
  read_tags-tags_of (element name attributes children) s =
      read_tags-append (tags_of_children children) (close_tag ∷ [])
        (on_tag (open_tag name attributes) s)
      ∙ ap end_tag (read_children children name attributes nil s.element_stack s.root)

  read_children :
      (es : Children) (name : Text) (attributes : List (Text × Text)) (before : Children)
      (stack : List XmlElement) (root : Option XmlElement)
      → read_tags (tags_of_children es) (inside name attributes before stack root)
        ≡ inside name attributes (append before es) stack root
  read_children nil name attributes before stack root =
      ap (λ cs. inside name attributes cs stack root) (sym (append_nil before))
  read_children (cons e es) name attributes before stack root =
      read_tags-append (tags_of e) (tags_of_children es) (inside name attributes before stack root)
      ∙ ap (read_tags (tags_of_children es))
          (read_tags-tags_of e (inside name attributes before stack root))
      ∙ read_children es name attributes (append before (cons e nil)) stack root
      ∙ ap (λ cs. inside name attributes cs stack root) (append_assoc before (cons e nil) es)

-- The tags of a whole document leave its root and no element open.
pub read_tags-document :
    (e : XmlElement) (root : Option XmlElement)
    → read_tags (tags_of e) (record { element_stack = []; root = root })
      ≡ record { element_stack = []; root = some e }
unfolding end_tag start_tag
read_tags-document e root = read_tags-tags_of e (record { element_stack = []; root = root })
