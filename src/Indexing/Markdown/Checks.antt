-- ===== src/Indexing/Markdown/Checks.antt =====
-- The calls of infrastructure/source/markdown.py that only check return or raise.
use omf_retrieval.Indexing.Markdown.{Token}
use omf_retrieval.Indexing.Markdown.Blocks.{all_roots, freeze, freeze_all, from_list, mapped_blocks}
use omf_retrieval.Indexing.Markdown.Headings.{
  Heading, add_heading, digits_value, heading_level, heading_lines, new_heading, top_level_headings,
}
use omf_retrieval.Indexing.Markdown.Sections.{
  checked_section, fill_section, gap_block, gap_to, raw_gap, section_blocks,
}
use omf_retrieval.Indexing.Structure.{
  Blocks, ParsedBlock, ParsedMarkdown, ParsedSection, check_parsed_block, check_parsed_markdown,
  check_parsed_section, children_of, first_line, has_heading, is_earlier, is_inside, is_sequential,
  kind_of, last_line, next_block, no_blocks, parsed_block, require_inclusive_line_range,
}
use omf_retrieval.Prelude.{
  All, List, Option, Result, [], all, arith, drop, index_error, leb, ltb, none, not, refl, some,
  structure_validation, true, value_error, ℕ, ◌&&◌, ◌*◌, ◌+◌, ◌-◌, ◌||◌, ◌∷◌, ◌≡◌, ◌≤◌,
}
use omf_retrieval.Prelude.Ensures.{
  Ensures, Ensures-bind, Ensures-branch, Ensures-imp, Ensures-require, Halts, refused,
  require-Halts, returned,
}
use omf_retrieval.Prelude.Text.{Text, is_empty}

lines-Halts : (i j : ℕ) → Halts (require_inclusive_line_range i j)
unfolding require_inclusive_line_range
lines-Halts i j = require-Halts (leb 1 i && leb i j) structure_validation tt

pub check_parsed_block-Halts : (b : ParsedBlock) → Halts (check_parsed_block b)
unfolding check_parsed_block
check_parsed_block-Halts b =
    Ensures-require (not (is_empty (kind_of b))) structure_validation _ tt λ e.
      Ensures-bind (require_inclusive_line_range (first_line b) (last_line b)) _
        (lines-Halts (first_line b) (last_line b))
        λ u q h.
          require-Halts (all (is_inside (first_line b) (last_line b)) (children_of b))
            structure_validation tt

-- a section that passes has a heading just if its level is not 0
check_parsed_section-Heads :
    (s : ParsedSection) → Ensures (λ _. has_heading s ≡ true) (check_parsed_section s)
unfolding check_parsed_section
check_parsed_section-Heads s =
    Ensures-require (is_earlier s.ordinal s.parent_ordinal) structure_validation _ tt λ e.
      Ensures-require (leb s.level 6) structure_validation _ tt λ e'.
        Ensures-require (has_heading s) structure_validation _ tt λ e''.
          Ensures-bind (require_inclusive_line_range s.line_start s.line_end) _
            (lines-Halts s.line_start s.line_end)
            λ u q h.
              Ensures-imp (λ v k. e'')
                (require-Halts (all (is_inside s.line_start s.line_end) s.blocks)
                  structure_validation tt)

pub check_parsed_markdown-Halts : (m : ParsedMarkdown) → Halts (check_parsed_markdown m)
unfolding check_parsed_markdown
check_parsed_markdown-Halts m =
    Ensures-require (not (is_empty m.parser_version)) structure_validation _ tt
      λ e. require-Halts (is_sequential 0 m.sections) structure_validation tt

-- a section that is checked is returned as it is, and it has a heading just if its level is not 0
pub checked_section-is :
    (s : ParsedSection) → Ensures (λ s'. (s' ≡ s) × (has_heading s ≡ true)) (checked_section s)
unfolding checked_section
checked_section-is s =
    Ensures-bind (check_parsed_section s) _ (check_parsed_section-Heads s)
      λ u q h. returned s (refl, h)

mutual
  unfolding freeze

  freeze-Halts : (b : ParsedBlock) → Halts (freeze b)
  freeze-Halts (parsed_block kind raw_text line_start line_end children) =
      Ensures-bind (freeze_all children) _ (freeze_all-Halts children)
        λ u q h. check_parsed_block-Halts (parsed_block kind raw_text line_start line_end children)

  pub freeze_all-Halts : (bs : Blocks) → Halts (freeze_all bs)
  freeze_all-Halts no_blocks = returned tt tt
  freeze_all-Halts (next_block b bs) =
      Ensures-bind (freeze b) _ (freeze-Halts b) λ u q h. freeze_all-Halts bs

-- what is frozen are the roots
pub mapped_blocks-is :
    (tokens : List Token) (source_lines : List Text)
    → Ensures (λ roots. roots ≡ all_roots tokens source_lines) (mapped_blocks tokens source_lines)
unfolding mapped_blocks
mapped_blocks-is tokens source_lines =
    let roots = all_roots tokens source_lines in
    Ensures-bind (freeze_all (from_list roots)) _ (freeze_all-Halts (from_list roots))
      λ u q h. returned roots refl

digits_value-Halts : (n : ℕ) (s : Text) → Halts (digits_value n s)
unfolding digits_value
digits_value-Halts n [] = returned n tt
digits_value-Halts n (c ∷ s) =
    Ensures-branch (leb 48 c && leb c 57) _ _ (digits_value-Halts (10 * n + (c - 48)) s)
      (refused value_error tt)

heading_level-Halts : (tag : Text) → Halts (heading_level tag)
unfolding heading_level
heading_level-Halts tag =
    Ensures-branch (is_empty (drop 1 tag)) _ _ (refused value_error tt)
      (digits_value-Halts 0 (drop 1 tag))

new_heading-Follows :
    (t : Token) (tokens : List Token) (lines : ℕ × ℕ)
    → Ensures (λ h. 1 ≤ h.line_after) (new_heading t tokens lines)
unfolding new_heading
new_heading-Follows t [] lines = refused index_error tt
new_heading-Follows t (inline ∷ tokens) lines =
    Ensures-bind (heading_level t.tag) _ (heading_level-Halts t.tag)
      λ level e h. returned _ (omega arith)

add_heading-Follows :
    (lines : Option (ℕ × ℕ)) (t : Token) (tokens : List Token) (rest : Result (List Heading))
    → Ensures (All (λ h. 1 ≤ h.line_after)) rest
    → Ensures (All (λ h. 1 ≤ h.line_after)) (add_heading lines t tokens rest)
unfolding add_heading
add_heading-Follows none t tokens rest more = more
add_heading-Follows (some lines) t tokens rest more =
    Ensures-bind (new_heading t tokens lines) _ (new_heading-Follows t tokens lines)
      λ h q first. Ensures-bind rest _ more λ hs q' more'. returned (h ∷ hs) (first, more')

-- the line behind a heading is counted from 1
pub headings_follow :
    (tokens : List Token) → Ensures (All (λ h. 1 ≤ h.line_after)) (top_level_headings tokens)
unfolding top_level_headings
headings_follow [] = returned [] tt
headings_follow (t ∷ tokens) =
    add_heading-Follows (heading_lines t) t tokens (top_level_headings tokens)
      (headings_follow tokens)

raw_gap-Halts : (source_lines : List Text) (i j : ℕ) → Halts (raw_gap source_lines i j)
unfolding raw_gap
raw_gap-Halts source_lines i j =
    let gap = gap_block source_lines i j in
    Ensures-bind (check_parsed_block gap) _ (check_parsed_block-Halts gap) λ u q h. returned gap tt

gap_to-Halts : (source_lines : List Text) (i j : ℕ) → Halts (gap_to source_lines i j)
unfolding gap_to
gap_to-Halts source_lines i j =
    Ensures-branch (leb i j) _ _
      (Ensures-bind (raw_gap source_lines i j) _ (raw_gap-Halts source_lines i j)
        λ gap q h. returned (gap ∷ []) tt)
      (returned [] tt)

fill_section-Halts :
    (source_lines : List Text) (i j cursor : ℕ) (bs : List ParsedBlock)
    → Halts (fill_section source_lines i j cursor bs)
unfolding fill_section
fill_section-Halts source_lines i j cursor [] = gap_to-Halts source_lines cursor j
fill_section-Halts source_lines i j cursor (b ∷ bs) =
    let skipped = fill_section-Halts source_lines i j cursor bs in
    Ensures-branch (ltb (last_line b) i) _ _ skipped (
      Ensures-branch (ltb j (first_line b)) _ _ (gap_to-Halts source_lines cursor j) (
        Ensures-branch (ltb (first_line b) i || ltb j (last_line b)) _ _ skipped (
          Ensures-bind (gap_to source_lines cursor (first_line b - 1)) _
            (gap_to-Halts source_lines cursor (first_line b - 1))
            λ gap q h.
              Ensures-bind (fill_section source_lines i j (last_line b + 1) bs) _
                (fill_section-Halts source_lines i j (last_line b + 1) bs)
                λ rest q' h'. returned _ tt)))

pub section_blocks-Halts :
    (bs : List ParsedBlock) (source_lines : List Text) (i j : ℕ)
    → Halts (section_blocks bs source_lines i j)
unfolding section_blocks
section_blocks-Halts bs source_lines i j =
    Ensures-branch (ltb j i) _ _ (returned [] tt) (fill_section-Halts source_lines i j i bs)
