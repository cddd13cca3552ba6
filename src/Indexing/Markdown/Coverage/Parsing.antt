-- ===== src/Indexing/Markdown/Coverage/Parsing.antt =====
-- Each section that `parse` of infrastructure/source/markdown.py returns is divided into blocks
-- without a gap.
use omf_retrieval.Indexing.Chunker.Source.Section.{blocks_text}
use omf_retrieval.Indexing.Markdown.{Token}
use omf_retrieval.Indexing.Markdown.Blocks.{lines_text, mapped_blocks}
use omf_retrieval.Indexing.Markdown.Blocks.Outline.{AreInOrder, Laid, span}
use omf_retrieval.Indexing.Markdown.Blocks.Roots.{roots-Laid}
use omf_retrieval.Indexing.Markdown.Checks.{
  check_parsed_markdown-Halts, checked_section-is, headings_follow, mapped_blocks-is,
}
use omf_retrieval.Indexing.Markdown.Coverage.{section_blocks_returns}
use omf_retrieval.Indexing.Markdown.Headings.{Heading, top_level_headings}
use omf_retrieval.Indexing.Markdown.Sections.{
  HeadingEntry, Started, checked_section, entry_of, heading_section, heading_sections, map_sections,
  next_line, parse, pop_stack, preamble_of, preamble_section,
}
use omf_retrieval.Indexing.Ports.{split_physical_lines}
use omf_retrieval.Indexing.Structure.{ParsedBlock, ParsedSection, check_parsed_markdown}
use omf_retrieval.Prelude.{
  All, All-append, List, Result, [], arith, false, length, map, refl, sym, ℕ, ◌++◌, ◌+◌, ◌-◌, ◌∙◌,
  ◌∷◌, ◌≡◌, ◌≤◌,
}
use omf_retrieval.Prelude.Ensures.{Ensures, Ensures-bind, Ensures-branch, returned}
use omf_retrieval.Prelude.Text.{Text, is_blank}

-- The body of a section is the source's lines from one of them to the section's last, and the texts
-- of its blocks, put together, are the body.
pub record IsCovered (source_lines : List Text) (s : ParsedSection) : Type 0 where
  pub body_start : ℕ
  pub counted : 1 ≤ body_start
  pub body_lines : s.body ≡ lines_text source_lines (body_start - 1) s.line_end
  pub whole : blocks_text s.blocks ≡ s.body

module _ (source_lines : List Text) where
  -- a section before its blocks are made
  IsStarted : Started → Type 0
  IsStarted (s, body_start) =
      (1 ≤ body_start) × (s.body ≡ lines_text source_lines (body_start - 1) s.line_end)

  preamble-IsStarted :
      (first_heading_line : ℕ)
      → Ensures (All IsStarted) (preamble_section source_lines first_heading_line)
  unfolding preamble_section preamble_of IsStarted
  preamble-IsStarted first_heading_line =
      Ensures-branch (is_blank (lines_text source_lines 0 (first_heading_line - 1))) _ _
        (returned [] tt)
        (Ensures-bind (checked_section _) _ (checked_section-is _)
          λ s q same. returned _ ((omega arith, rw same.0 refl), tt))

  heading_sections-IsStarted :
      (ordinal : ℕ) (stack : List HeadingEntry) (hs : List Heading)
      → All (λ h. 1 ≤ h.line_after) hs
      → Ensures (All IsStarted) (heading_sections source_lines ordinal stack hs)
  unfolding heading_sections IsStarted heading_section
  heading_sections-IsStarted ordinal stack [] counted = returned [] tt
  heading_sections-IsStarted ordinal stack (h ∷ hs) counted =
      let above = pop_stack h.level stack in
      let s = heading_section source_lines ordinal above h (next_line source_lines hs) in
      Ensures-bind (checked_section s) _ (checked_section-is s) λ s' q same.
        Ensures-bind (heading_sections source_lines (ordinal + 1) (entry_of s ∷ above) hs) _
          (heading_sections-IsStarted (ordinal + 1) (entry_of s ∷ above) hs counted.1)
          λ rest q' more. returned _ ((counted.0, rw same.0 refl), more)

  map_sections-IsCovered :
      (bs : List ParsedBlock) (m : ℕ) (sections : List Started)
      → Laid source_lines 0 (map span bs) m
      → All IsStarted sections
      → Ensures (All (IsCovered source_lines)) (map_sections bs source_lines sections)
  unfolding map_sections IsStarted
  map_sections-IsCovered bs m [] laid h = returned [] tt
  map_sections-IsCovered bs m ((s, body_start) ∷ sections) laid h =
      let (blocks, (returns, text)) =
        section_blocks_returns source_lines bs m body_start s.line_end laid h.0.0 in
      rw returns (
        Ensures-bind (checked_section (record s { blocks = blocks })) _ (checked_section-is _)
          λ s' q same.
            Ensures-bind (map_sections bs source_lines sections) _
              (map_sections-IsCovered bs m sections laid h.1)
              λ rest q' more. returned (s' ∷ rest) (
                rw same.0 (record {
                  body_start = body_start;
                  counted = h.0.0;
                  body_lines = h.0.1;
                  whole = text ∙ sym h.0.1;
                }),
                more,
              ))

-- Where markdown-it returns tokens that are in the order of their lines (and never runs on for
-- ever), each section that `parse` returns has as its body the lines of the source from its heading
-- to its end, and its blocks, those of the tokens and the gaps between them, put together are that
-- body to the character.
pub parse-IsCovered :
    (markdown_it : Text → Result (List Token)) (source : Text)
    → Ensures (AreInOrder false 0) (markdown_it source)
    → Ensures
        (λ m. All (IsCovered (split_physical_lines source)) m.sections)
        (parse markdown_it source)
unfolding parse
parse-IsCovered markdown_it source in_order =
    let lines = split_physical_lines source in
    Ensures-bind (markdown_it source) _ in_order λ tokens q order.
      Ensures-bind (top_level_headings tokens) _ (headings_follow tokens) λ hs q' counted.
        Ensures-bind (preamble_section lines (next_line lines hs)) _
          (preamble-IsStarted lines (next_line lines hs))
          λ preamble q'' first.
            Ensures-bind (heading_sections lines (length preamble) [] hs) _
              (heading_sections-IsStarted lines (length preamble) [] hs counted)
              λ sections q3 more.
                Ensures-bind (mapped_blocks tokens lines) _ (mapped_blocks-is tokens lines)
                  λ roots q4 same.
                    let laid : (m : ℕ) × Laid lines 0 (map span roots) m =
                      rw same (roots-Laid lines tokens order) in
                    Ensures-bind (map_sections roots lines (preamble ++ sections)) _
                      (map_sections-IsCovered lines roots laid.0 (preamble ++ sections) laid.1
                        (All-append _ preamble sections first more))
                      λ mapped q5 covered.
                        Ensures-bind (check_parsed_markdown _) _ (check_parsed_markdown-Halts _)
                          λ u q6 h. returned _ covered
