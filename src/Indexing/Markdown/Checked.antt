-- ===== src/Indexing/Markdown/Checked.antt =====
-- The blocks of the sections that infrastructure/source/markdown.py returns have passed the checks of
-- their constructor.
use mathlib.Core.Path.{subst}
use omf_retrieval.Indexing.Markdown.{Token}
use omf_retrieval.Indexing.Markdown.Blocks.{all_roots, freeze, freeze_all, from_list, mapped_blocks}
use omf_retrieval.Indexing.Markdown.Checks.{
  check_parsed_block-Halts, checked_section-is, freeze_all-Halts,
}
use omf_retrieval.Indexing.Markdown.Headings.{top_level_headings}
use omf_retrieval.Indexing.Markdown.Sections.{
  Started, checked_section, fill_section, gap_block, gap_to, heading_sections, map_sections,
  next_line, parse, preamble_section, raw_gap, section_blocks,
}
use omf_retrieval.Indexing.Ports.{split_physical_lines}
use omf_retrieval.Indexing.Structure.{
  Blocks, ParsedBlock, ParsedMarkdown, check_parsed_block, check_parsed_markdown, first_line,
  last_line, parsed_block,
}
use omf_retrieval.Prelude.{
  >>=-eq_ok, All, All-append, List, Result, [], leb, length, ltb, ok, ok-injective, ℕ, ◌++◌, ◌+◌,
  ◌-◌, ◌||◌, ◌∷◌, ◌≡◌,
}
use omf_retrieval.Prelude.Ensures.{
  Ensures, Ensures-at, Ensures-bind, Ensures-branch, Ensures-imp, Ensures-with, returned,
}
use omf_retrieval.Prelude.Text.{Text}

abbrev pub IsCheckedBlock : ParsedBlock → Type 0
IsCheckedBlock b = check_parsed_block b ≡ ok tt

abbrev pub AreChecked : ParsedMarkdown → Type 0
AreChecked m = All (λ r. All IsCheckedBlock r.blocks) m.sections

-- a block that is frozen is checked
freeze-Checked :
    (kind raw_text : Text) (line_start line_end : ℕ) (inner : Blocks)
    → Ensures
        (λ _. IsCheckedBlock (parsed_block kind raw_text line_start line_end inner))
        (freeze (parsed_block kind raw_text line_start line_end inner))
unfolding freeze
freeze-Checked kind raw_text line_start line_end inner =
    let b = parsed_block kind raw_text line_start line_end inner in
    Ensures-bind (freeze_all inner) _ (freeze_all-Halts inner)
      λ u q h. Ensures-with (check_parsed_block-Halts b) (λ v e. e)

-- and so are all that are frozen
freeze_all-Checked :
    (bs : List ParsedBlock) → Ensures (λ _. All IsCheckedBlock bs) (freeze_all (from_list bs))
unfolding freeze_all freeze from_list
freeze_all-Checked [] = returned tt tt
freeze_all-Checked (parsed_block kind raw_text line_start line_end inner ∷ bs) =
    let b = parsed_block kind raw_text line_start line_end inner in
    Ensures-bind (freeze b) _ (freeze-Checked kind raw_text line_start line_end inner)
      λ u q h. Ensures-imp (λ v more. (h, more)) (freeze_all-Checked bs)

mapped_blocks-Checked :
    (tokens : List Token) (source_lines : List Text)
    → Ensures (All IsCheckedBlock) (mapped_blocks tokens source_lines)
unfolding mapped_blocks
mapped_blocks-Checked tokens source_lines =
    let roots = all_roots tokens source_lines in
    Ensures-bind (freeze_all (from_list roots)) _ (freeze_all-Checked roots)
      λ u q h. returned roots h

raw_gap-Checked :
    (source_lines : List Text) (i j : ℕ) → Ensures IsCheckedBlock (raw_gap source_lines i j)
unfolding raw_gap
raw_gap-Checked source_lines i j =
    let gap = gap_block source_lines i j in
    Ensures-bind (check_parsed_block gap) _ (check_parsed_block-Halts gap) λ u q h. returned gap q

gap_to-Checked :
    (source_lines : List Text) (i j : ℕ) → Ensures (All IsCheckedBlock) (gap_to source_lines i j)
unfolding gap_to
gap_to-Checked source_lines i j =
    Ensures-branch (leb i j) _ _
      (Ensures-bind (raw_gap source_lines i j) _ (raw_gap-Checked source_lines i j)
        λ gap q h. returned (gap ∷ []) (h, tt))
      (returned [] tt)

fill_section-Checked :
    (source_lines : List Text) (i j cursor : ℕ) (bs : List ParsedBlock)
    → All IsCheckedBlock bs
    → Ensures (All IsCheckedBlock) (fill_section source_lines i j cursor bs)
unfolding fill_section
fill_section-Checked source_lines i j cursor [] each = gap_to-Checked source_lines cursor j
fill_section-Checked source_lines i j cursor (b ∷ bs) each =
    let skipped = fill_section-Checked source_lines i j cursor bs each.1 in
    Ensures-branch (ltb (last_line b) i) _ _ skipped (
      Ensures-branch (ltb j (first_line b)) _ _ (gap_to-Checked source_lines cursor j) (
        Ensures-branch (ltb (first_line b) i || ltb j (last_line b)) _ _ skipped (
          Ensures-bind (gap_to source_lines cursor (first_line b - 1)) _
            (gap_to-Checked source_lines cursor (first_line b - 1))
            λ gap q h.
              Ensures-bind (fill_section source_lines i j (last_line b + 1) bs) _
                (fill_section-Checked source_lines i j (last_line b + 1) bs each.1)
                λ rest q' h'.
                  returned _ (All-append IsCheckedBlock gap (b ∷ rest) h (each.0, h')))))

section_blocks-Checked :
    (bs : List ParsedBlock) (source_lines : List Text) (i j : ℕ)
    → All IsCheckedBlock bs
    → Ensures (All IsCheckedBlock) (section_blocks bs source_lines i j)
unfolding section_blocks
section_blocks-Checked bs source_lines i j each =
    Ensures-branch (ltb j i) _ _ (returned [] tt) (fill_section-Checked source_lines i j i bs each)

map_sections-Checked :
    (bs : List ParsedBlock) (source_lines : List Text) (sections : List Started)
    → All IsCheckedBlock bs
    → Ensures (All (λ r. All IsCheckedBlock r.blocks)) (map_sections bs source_lines sections)
unfolding map_sections
map_sections-Checked bs source_lines [] each = returned [] tt
map_sections-Checked bs source_lines ((s, body_start) ∷ sections) each =
    Ensures-bind (section_blocks bs source_lines body_start s.line_end) _
      (section_blocks-Checked bs source_lines body_start s.line_end each)
      λ blocks q h.
        Ensures-bind (checked_section (record s { blocks = blocks })) _ (checked_section-is _)
          λ s' q' same.
            Ensures-bind (map_sections bs source_lines sections) _
              (map_sections-Checked bs source_lines sections each)
              λ rest q'' more. returned (s' ∷ rest) (rw same.0 h, more)

-- the blocks of all sections
pub parse-AreChecked :
    (markdown_it : Text → Result (List Token)) (source : Text) (m : ParsedMarkdown)
    → parse markdown_it source ≡ ok m
    → AreChecked m
unfolding parse
parse-AreChecked markdown_it source m e =
    let lines = split_physical_lines source in
    let (tokens, q, e) = >>=-eq_ok (markdown_it source) _ e in
    let (hs, q, e) = >>=-eq_ok (top_level_headings tokens) _ e in
    let (preamble, q, e) = >>=-eq_ok (preamble_section lines (next_line lines hs)) _ e in
    let (sections, q, e) = >>=-eq_ok (heading_sections lines (length preamble) [] hs) _ e in
    let (roots, frozen, e) = >>=-eq_ok (mapped_blocks tokens lines) _ e in
    let (mapped, made, e) = >>=-eq_ok (map_sections roots lines (preamble ++ sections)) _ e in
    let (u, q, same) = >>=-eq_ok (check_parsed_markdown _) _ e in
    let each = Ensures-at (mapped_blocks-Checked tokens lines) frozen in
    subst AreChecked (ok-injective same)
      (Ensures-at (map_sections-Checked roots lines (preamble ++ sections) each) made)
