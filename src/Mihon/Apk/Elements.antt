-- ===== src/Mihon/Apk/Elements.antt =====
-- The elements of rust/mihon/src/apk/manifest.rs, and the stack on which its parser builds them.
use dion_runtime.Base.{
  Option, none, some, List, [], ◌∷◌, ◌++◌, Text, ◌==◌, nat_eq, list_eq, if◌then◌else◌,
}

mutual
  pub data XmlElement : Type 0 where
    element : Text → List (Text × Text) → Children → XmlElement

  pub data Children : Type 0 where
    nil : Children
    cons : XmlElement → Children → Children

unfoldable pub append : Children → Children → Children
append nil ys = ys
append (cons x xs) ys = cons x (append xs ys)

-- `parent.children.push(element)`
unfoldable pub push_child : XmlElement → XmlElement → XmlElement
unfolding append
push_child (element name attributes children) child =
    element name attributes (append children (cons child nil))

-- The elements that are open, the innermost first, and the root.
pub record Nest : Type 0 where
  pub element_stack : List XmlElement
  pub root : Option XmlElement

unfoldable pub start_tag : XmlElement → Nest → Nest
start_tag e s = record s { element_stack = e ∷ s.element_stack }

abbrev close : List XmlElement → Nest → Nest
close [] s = s
close (e ∷ []) s = record { element_stack = []; root = some e }
close (e ∷ parent ∷ stack) s = record s { element_stack = push_child parent e ∷ stack }

unfoldable pub end_tag : Nest → Nest
unfolding push_child
end_tag s = close s.element_stack s

abbrev if_named : Text → Text → XmlElement → List XmlElement
if_named name tag e = if tag == name then e ∷ [] else []

unfoldable mutual
  pub find_elements_recursive : Text → XmlElement → List XmlElement
  find_elements_recursive name (element tag attributes children) =
      if_named name tag (element tag attributes children) ++ find_in_children name children

  pub find_in_children : Text → Children → List XmlElement
  find_in_children name nil = []
  find_in_children name (cons e es) = find_elements_recursive name e ++ find_in_children name es

unfoldable pub find_elements : Text → Option XmlElement → List XmlElement
unfolding find_elements_recursive
find_elements name none = []
find_elements name (some root) = find_elements_recursive name root
