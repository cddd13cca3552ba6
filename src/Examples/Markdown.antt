-- ===== src/Examples/Markdown.antt =====
-- The parser of infrastructure/source/markdown.py at work, with the tokens that markdown-it gives for
-- one document.
use omf_retrieval.Indexing.Markdown.{Token}
use omf_retrieval.Indexing.Markdown.Blocks.{
  all_roots, block_of_token, freeze, from_list, kind_by_token, lines_text, mapped_blocks,
}
use omf_retrieval.Indexing.Markdown.Blocks.Outline.{AreInOrder}
use omf_retrieval.Indexing.Markdown.Coverage.Parsing.{IsCovered}
use omf_retrieval.Indexing.Markdown.Headings.{
  add_heading, digits_value, heading_level, heading_lines, new_heading, top_level_headings,
}
use omf_retrieval.Indexing.Markdown.Nesting.{AreNested, place_of}
use omf_retrieval.Indexing.Markdown.Nesting.Parsing.{parse-AreNested}
use omf_retrieval.Indexing.Markdown.Sections.{
  checked_section, entry_of, fill_section, gap_block, gap_to, heading_section, heading_sections,
  map_sections, parse, pop_stack, preamble_of, preamble_section, raw_gap, section_blocks,
}
use omf_retrieval.Indexing.Markdown.Total.Parsing.{IsDocument, parse_total}
use omf_retrieval.Indexing.Markdown.Total.Trees.{enclosing}
use omf_retrieval.Indexing.Ports.{split_physical_lines}
use omf_retrieval.Indexing.Ports.Lines.{joined}
use omf_retrieval.Indexing.Structure.{
  ParsedMarkdown, check_parsed_block, check_parsed_markdown, check_parsed_section, children_of,
  has_heading, is_inside, is_sequential, kind_of, require_inclusive_line_range, to_list,
}
use omf_retrieval.Prelude.{
  All, Bool, List, Option, Result, [], all, arith, drop, false, map, none, ok, raise, refl, some,
  take, true, ℕ, ◌∷◌, ◌≡◌,
}
use omf_retrieval.Prelude.Ensures.{Ensures, returned}
use omf_retrieval.Prelude.Slices.{slice}
use omf_retrieval.Prelude.Text.{Text, codes, is_blank}

abbrev document : Text
document = codes "intro\n\n# A\ntext\n## B\n- x\n"

abbrev token : Text → Text → ℕ → Option (ℕ × ℕ) → Bool → Text → Token
token kind tag level lines opens content = record {
  kind = kind;
  tag = tag;
  level = level;
  lines = lines;
  opens = opens;
  content = content;
}

abbrev pub block_token : Text → ℕ → ℕ × ℕ → Token
block_token kind level lines = token kind [] level (some lines) true []

abbrev close_token : Text → ℕ → Token
close_token kind level = token kind [] level none false []

abbrev inline_token : ℕ → ℕ × ℕ → Text → Token
inline_token level lines content = token (codes "inline") [] level (some lines) false content

abbrev heading_token : Text → ℕ × ℕ → Token
heading_token tag lines = token (codes "heading_open") tag 0 (some lines) true []

abbrev document_tokens : List Token
document_tokens =
    block_token (codes "paragraph_open") 0 (0, 1)
    ∷ inline_token 1 (0, 1) (codes "intro")
    ∷ close_token (codes "paragraph_close") 0
    ∷ heading_token (codes "h1") (2, 3)
    ∷ inline_token 1 (2, 3) (codes "A")
    ∷ close_token (codes "heading_close") 0
    ∷ block_token (codes "paragraph_open") 0 (3, 4)
    ∷ inline_token 1 (3, 4) (codes "text")
    ∷ close_token (codes "paragraph_close") 0
    ∷ heading_token (codes "h2") (4, 5)
    ∷ inline_token 1 (4, 5) (codes "B")
    ∷ close_token (codes "heading_close") 0
    ∷ block_token (codes "bullet_list_open") 0 (5, 6)
    ∷ block_token (codes "list_item_open") 1 (5, 6)
    ∷ block_token (codes "paragraph_open") 2 (5, 6)
    ∷ inline_token 3 (5, 6) (codes "x")
    ∷ close_token (codes "paragraph_close") 2
    ∷ close_token (codes "list_item_close") 1
    ∷ close_token (codes "bullet_list_close") 0
    ∷ []

abbrev markdown_it : Text → Result (List Token)
markdown_it source = ok document_tokens

document-AreInOrder : AreInOrder false 0 document_tokens
unfolding block_of_token kind_by_token
document-AreInOrder = (
  omega arith,
  (omega arith, (omega arith, (omega arith, (omega arith, (omega arith, (refl, (refl, tt))))))),
)

document-IsDocument : IsDocument document document_tokens
unfolding block_of_token kind_by_token enclosing heading_lines heading_level digits_value drop
    split_physical_lines
document-IsDocument = record {
  ordered = document-AreInOrder;
  within = (
    omega arith,
    (
      tt,
      (
        omega arith,
        (
          tt,
          (
            omega arith,
            (
              tt,
              (
                omega arith,
                ((omega arith, omega arith), (omega arith, ((omega arith, omega arith), tt))),
              ),
            ),
          ),
        ),
      ),
    ),
  );
  headings = (
    (1, (refl, (omega arith, omega arith))),
    (
      omega arith,
      (
        omega arith,
        ((2, (refl, (omega arith, omega arith))), (omega arith, (omega arith, omega arith))),
      ),
    ),
  );
}

parse_total_example :
    (m : ParsedMarkdown) × ((parse markdown_it document ≡ ok m)
      × (All (IsCovered (split_physical_lines document)) m.sections
          × AreNested [] (map place_of m.sections)))
parse_total_example = parse_total markdown_it document document_tokens refl document-IsDocument

parse-AreNested_example :
    Ensures (λ m. AreNested [] (map place_of m.sections)) (parse markdown_it document)
parse-AreNested_example = parse-AreNested markdown_it document (returned document_tokens tt)

-- the parents of the sections and the kinds of their blocks
abbrev shape : ParsedMarkdown → List (Option ℕ × List Text)
shape m = map (λ s. (s.parent_ordinal, map kind_of s.blocks)) m.sections

abbrev shape_of : Result ParsedMarkdown → List (Option ℕ × List Text)
shape_of (ok m) = shape m
shape_of (raise e) = []

parsed_shape :
    shape_of (parse markdown_it document)
    ≡ (none, codes "paragraph" ∷ codes "blank" ∷ [])
      ∷ (none, codes "paragraph" ∷ [])
      ∷ (some 1, codes "bullet_list" ∷ [])
      ∷ []
unfolding parse split_physical_lines top_level_headings add_heading heading_lines new_heading
    heading_level digits_value preamble_section preamble_of heading_sections heading_section
    pop_stack entry_of checked_section check_parsed_section mapped_blocks all_roots map_sections
    section_blocks fill_section gap_to raw_gap gap_block check_parsed_markdown check_parsed_block
    freeze is_blank lines_text slice drop take joined is_inside all has_heading
    require_inclusive_line_range is_sequential from_list to_list children_of
parsed_shape = refl
