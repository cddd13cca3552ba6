-- ===== src/Indexing/Markdown/Headings.antt =====
-- The headings of a document, `_top_level_headings` of infrastructure/source/markdown.py.
use omf_retrieval.Indexing.Markdown.{Token}
use omf_retrieval.Prelude.{
  List, Option, Result, [], drop, if◌then◌else◌, index_error, leb, list_eq, nat_beq, nat_eq, none,
  ok, raise, some, value_error, ℕ, ◌&&◌, ◌*◌, ◌+◌, ◌-◌, ◌==◌, ◌>>=◌, ◌∷◌,
}
use omf_retrieval.Prelude.Text.{Text, codes, is_empty}

pub record Heading : Type 0 where
  pub level : ℕ
  pub text : Text
  pub line_start : ℕ
  pub line_after : ℕ

-- `int(digits)`, for the digits of a tag `h1` to `h6`, which is what markdown-it gives
unfoldable pub digits_value : ℕ → Text → Result ℕ
digits_value n [] = ok n
digits_value n (c ∷ s) =
    let rest = digits_value (10 * n + (c - 48)) s in
    if leb 48 c && leb c 57 then rest else raise value_error

unfoldable pub heading_level : Text → Result ℕ
unfolding digits_value drop
heading_level tag = if is_empty (drop 1 tag) then raise value_error else digits_value 0 (drop 1 tag)

-- the lines of a heading token at the top level
unfoldable pub heading_lines : Token → Option (ℕ × ℕ)
heading_lines t = if t.kind == codes "heading_open" && nat_beq t.level 0 then t.lines else none

unfoldable pub new_heading : Token → List Token → ℕ × ℕ → Result Heading
new_heading t [] lines = raise index_error
new_heading t (inline ∷ tokens) lines = do
  level ← heading_level t.tag
  ok (record {
    level = level;
    text = inline.content;
    line_start = lines.0 + 1;
    line_after = lines.1 + 1;
  })

-- the loop's body; `rest` is what the tokens that follow give
unfoldable pub add_heading :
    Option (ℕ × ℕ) → Token → List Token → Result (List Heading) → Result (List Heading)
add_heading none t tokens rest = rest
add_heading (some lines) t tokens rest = do h ← new_heading t tokens lines; hs ← rest; ok (h ∷ hs)

unfoldable pub top_level_headings : List Token → Result (List Heading)
top_level_headings [] = ok []
top_level_headings (t ∷ tokens) = add_heading (heading_lines t) t tokens (top_level_headings tokens)
