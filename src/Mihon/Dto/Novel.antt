-- ===== src/Mihon/Dto/Novel.antt =====
-- The text of a novel's chapter in rust/mihon/src/mapping/dto.rs: how it is split into paragraphs.
use mathlib.Core.List.{map}
use dion_runtime.Base.{
  ℕ, Bool, false, not, ◌||◌, ◌&&◌, none, List, [], ◌∷◌, ◌++◌, Text, codes, ◌==◌, nat_eq, list_eq,
  any, filter, contains, is_blank, trim, if◌then◌else◌,
}
use dion_runtime.Base.Texts.{replace, split_text, contains_text}
use dion_runtime.UnixPath.{split_on}
use dion_runtime.Mihon.Dto.Types.{Embedded, text, Source, paragraphlist}

-- The characters outside of tags.
unfoldable pub strip_tags : Bool → Text → Text
strip_tags in_tag [] = []
strip_tags in_tag (c ∷ cs) =
    let in_tag' = c == b'<' || (in_tag && not (c == b'>')) in
    let rest = strip_tags in_tag' cs in if c == b'<' || c == b'>' || in_tag then rest else c ∷ rest

abbrev entities : List (Text × Text)
entities =
    (codes "&nbsp;", codes " ")
    ∷ (codes "&amp;", codes "&")
    ∷ (codes "&lt;", codes "<")
    ∷ (codes "&gt;", codes ">")
    ∷ (codes "&quot;", b'"' ∷ [])
    ∷ (codes "&#39;", b'\'' ∷ [])
    ∷ (codes "&apos;", b'\'' ∷ [])
    ∷ (codes "&mdash;", 0x2014 ∷ [])
    ∷ (codes "&ndash;", 0x2013 ∷ [])
    ∷ (codes "&hellip;", 0x2026 ∷ [])
    ∷ []

-- Replaces each first text by its second, in turn.
unfoldable pub replace_all : List (Text × Text) → Text → Text
unfolding replace
replace_all [] t = t
replace_all ((needle, by) ∷ rest) t = replace_all rest (replace needle by t)

unfoldable pub clean_html_text : Text → Text
unfolding strip_tags replace_all
clean_html_text t =
    trim (replace (codes "\r") [] (trim (replace_all entities (strip_tags false t))))

abbrev block_tags : List Text
block_tags = map codes (
    "<p>" ∷ "<p " ∷ "<br" ∷ "<div" ∷ "<h1" ∷ "<h2" ∷ "<h3" ∷ "<h4" ∷ "<h5" ∷ "<h6" ∷ "<li"
    ∷ "<blockquote" ∷ [])

abbrev closers : List Text
closers = map codes (
    "<br>" ∷ "<br/>" ∷ "<br />" ∷ "<br>" ∷ "</p>" ∷ "</div>" ∷ "</li>" ∷ "</h1>" ∷ "</h2>" ∷ "</h3>"
    ∷ "</h4>" ∷ "</h5>" ∷ "</h6>" ∷ "</blockquote>" ∷ [])

abbrev is_filled : Text → Bool
is_filled t = not (t == [])

unfoldable pub split_html_blocks : Text → List Text
unfolding replace_all split_on
split_html_blocks t = filter is_filled (
    map trim (
      split_on (λ (c : ℕ). c == 0)
        (replace_all (map (λ (tag : Text). (tag, b'\n' ∷ 0 ∷ [])) closers) t)))

-- `block.lines()`, trimmed, without the blank ones; a carriage return is trimmed too.
abbrev filled_lines : Text → List Text
filled_lines block =
    map trim (filter (λ (l : Text). not (is_blank l)) (split_on (λ (c : ℕ). c == b'\n') block))

unfoldable pub concat_lines : List Text → List Text
unfolding split_on
concat_lines [] = []
concat_lines (block ∷ blocks) = filled_lines block ++ concat_lines blocks

unfoldable pub split_plain : Text → List Text
unfolding concat_lines split_text
split_plain t = concat_lines (split_text (codes "\n\n") t)

module _ (to_lowercase : Text → Text) where
  unfoldable pub contains_block_tag : Text → Bool
  unfolding contains_text
  contains_block_tag t = any (λ (tag : Text). contains_text tag (to_lowercase t)) block_tags

  abbrev chunks : Text → List Text
  chunks trimmed =
      if contains trimmed b'<' && contains_block_tag trimmed
      then split_html_blocks trimmed
      else split_plain trimmed

  unfoldable pub split_novel_text : Text → List Text
  unfolding contains_block_tag split_html_blocks split_plain clean_html_text
  split_novel_text t =
      let trimmed = trim t in
      if trimmed == [] then [] else filter is_filled (map clean_html_text (chunks trimmed))

  unfoldable pub text_to_paragraph_source : {x : Embedded} → Text → Source x
  unfolding split_novel_text
  text_to_paragraph_source t =
      paragraphlist (map (λ (p : Text). text p none) (split_novel_text t)) none
