-- ===== src/Indexing/Markdown/Nesting/Parsing.antt =====
-- The sections that `parse` of infrastructure/source/markdown.py returns are nested by their levels.
use mathlib.Core.Path.{ap₂}
use omf_retrieval.Indexing.Markdown.{Token}
use omf_retrieval.Indexing.Markdown.Blocks.{lines_text, mapped_blocks}
use omf_retrieval.Indexing.Markdown.Checks.{
  check_parsed_markdown-Halts, checked_section-is, headings_follow, mapped_blocks-is,
  section_blocks-Halts,
}
use omf_retrieval.Indexing.Markdown.Headings.{Heading, top_level_headings}
use omf_retrieval.Indexing.Markdown.Nesting.{
  AreNested, IsUnder, Recalls, SectionPlace, first_below, heading-positive, nearest, ordinal_at,
  path_at, place_of, push-Recalls, top-pop_stack,
}
use omf_retrieval.Indexing.Markdown.Sections.{
  HeadingEntry, Started, checked_section, entry_of, heading_section, heading_sections, map_sections,
  next_line, parse, pop_stack, preamble_of, preamble_section, section_blocks,
}
use omf_retrieval.Indexing.Ports.{split_physical_lines}
use omf_retrieval.Indexing.Structure.{ParsedBlock, check_parsed_markdown, has_heading}
use omf_retrieval.Prelude.{
  List, Result, [], ap, arith, false, length, ltb, map, none, refl, true, ℕ, ◌++◌, ◌+◌, ◌-◌, ◌∙◌,
  ◌∷◌, ◌≡◌,
}
use omf_retrieval.Prelude.Ensures.{Ensures, Ensures-bind, Ensures-branch, Halts, returned}
use omf_retrieval.Prelude.Text.{Text, is_blank}

places : List Started → List SectionPlace
places sections = map (λ s. place_of s.0) sections

-- no section, or one without a heading
IsPreamble : List SectionPlace → Type 0
IsPreamble [] = Unit {0}
IsPreamble (s ∷ []) =
    (s.level ≡ 0) × ((s.parent_ordinal ≡ none) × ((s.heading ≡ none) × (s.heading_path ≡ [])))
IsPreamble (s ∷ t ∷ ss) = ⊥

module _ (source_lines : List Text) where
  preamble_section-IsPreamble :
      (first_heading_line : ℕ)
      → Ensures (λ ss. IsPreamble (places ss)) (preamble_section source_lines first_heading_line)
  unfolding preamble_section preamble_of IsPreamble places place_of
  preamble_section-IsPreamble first_heading_line =
      Ensures-branch (is_blank (lines_text source_lines 0 (first_heading_line - 1))) _ _
        (returned [] tt)
        (Ensures-bind (checked_section _) _ (checked_section-is _)
          λ s q same. returned _ (rw same.0 (refl, (refl, (refl, refl)))))

  heading-IsUnder :
      (ordinal : ℕ) (stack : List HeadingEntry) (h : Heading) (next_start : ℕ)
      (earlier : List SectionPlace)
      → Recalls stack earlier
      → IsUnder earlier
          (place_of (heading_section source_lines ordinal (pop_stack h.level stack) h next_start))
  unfolding Recalls heading_section place_of
  heading-IsUnder ordinal stack h next_start earlier agrees =
      let (parent, path) = top-pop_stack h.level stack in
      record {
        parent = parent ∙ ap ordinal_at (agrees h.level);
        path = ap (λ p. p ++ h.text ∷ []) (path ∙ ap path_at (agrees h.level));
      }

  heading-Recalls :
      (ordinal : ℕ) (stack : List HeadingEntry) (h : Heading) (next_start : ℕ)
      (earlier : List SectionPlace)
      → Recalls stack earlier
      → has_heading (heading_section source_lines ordinal (pop_stack h.level stack) h next_start)
        ≡ true
      → Recalls
          (entry_of (heading_section source_lines ordinal (pop_stack h.level stack) h next_start)
            ∷ pop_stack h.level stack)
          (place_of (heading_section source_lines ordinal (pop_stack h.level stack) h next_start)
            ∷ earlier)
  unfolding heading_section
  heading-Recalls ordinal stack h next_start earlier agrees headed =
      let s = heading_section source_lines ordinal (pop_stack h.level stack) h next_start in
      push-Recalls stack earlier s agrees (heading-positive s h.text refl headed)

  heading_sections-AreNested :
      (ordinal : ℕ) (stack : List HeadingEntry) (hs : List Heading) (earlier : List SectionPlace)
      → Recalls stack earlier
      → Ensures
          (λ ss. AreNested earlier (places ss))
          (heading_sections source_lines ordinal stack hs)
  unfolding heading_sections places
  heading_sections-AreNested ordinal stack [] earlier agrees = returned [] tt
  heading_sections-AreNested ordinal stack (h ∷ hs) earlier agrees =
      let above = pop_stack h.level stack in
      let s = heading_section source_lines ordinal above h (next_line source_lines hs) in
      Ensures-bind (checked_section s) _ (checked_section-is s) λ s' q same.
        Ensures-bind (heading_sections source_lines (ordinal + 1) (entry_of s ∷ above) hs) _
          (heading_sections-AreNested (ordinal + 1) (entry_of s ∷ above) hs (place_of s ∷ earlier)
            (heading-Recalls ordinal stack h (next_line source_lines hs) earlier agrees same.1))
          λ rest q' more. returned _ (
            rw same.0
              (heading-IsUnder ordinal stack h (next_line source_lines hs) earlier agrees, more))

-- with its blocks, a section has the place that it had
map_sections-places :
    (bs : List ParsedBlock) (source_lines : List Text) (sections : List Started)
    → Ensures (λ ss. map place_of ss ≡ places sections) (map_sections bs source_lines sections)
unfolding map_sections places place_of
map_sections-places bs source_lines [] = returned [] refl
map_sections-places bs source_lines ((s, body_start) ∷ sections) =
    Ensures-bind (section_blocks bs source_lines body_start s.line_end) _
      (section_blocks-Halts bs source_lines body_start s.line_end)
      λ blocks q h.
        Ensures-bind (checked_section (record s { blocks = blocks })) _ (checked_section-is _)
          λ s' q' same.
            Ensures-bind (map_sections bs source_lines sections) _
              (map_sections-places bs source_lines sections)
              λ rest q'' more. returned (s' ∷ rest) (ap₂ (λ p l. p ∷ l) (ap place_of same.0) more)

join_nested :
    (preamble sections : List Started)
    → IsPreamble (places preamble)
    → AreNested (places preamble) (places sections)
    → AreNested [] (places (preamble ++ sections))
unfolding IsPreamble places nearest
join_nested [] sections h nested = nested
join_nested (s ∷ []) sections (level, (parent, (heading, path))) nested =
    (record { parent = parent; path = rw heading path }, nested)
join_nested (s ∷ t ∷ ss) sections h nested = absurd h

preamble-Recalls : (preamble : List SectionPlace) → IsPreamble preamble → Recalls [] preamble
unfolding Recalls IsPreamble first_below nearest
preamble-Recalls [] h level = refl
preamble-Recalls (s ∷ []) h level =
    let no_heading : ltb 0 s.level ≡ false = ground (arith, h.0) in rw no_heading refl
preamble-Recalls (s ∷ t ∷ ss) h level = absurd h

-- Each section that `parse` returns has as its parent the last earlier section with a heading of a
-- smaller level, and none if there is no such section, and its path is that of its parent with its
-- own heading behind it. The call of markdown-it may raise, and does not run on for ever.
pub parse-AreNested :
    (markdown_it : Text → Result (List Token)) (source : Text)
    → Halts (markdown_it source)
    → Ensures (λ m. AreNested [] (map place_of m.sections)) (parse markdown_it source)
unfolding parse
parse-AreNested markdown_it source halts =
    let lines = split_physical_lines source in
    Ensures-bind (markdown_it source) _ halts λ tokens q order.
      Ensures-bind (top_level_headings tokens) _ (headings_follow tokens) λ hs q' counted.
        Ensures-bind (preamble_section lines (next_line lines hs)) _
          (preamble_section-IsPreamble lines (next_line lines hs))
          λ preamble q'' first.
            Ensures-bind (heading_sections lines (length preamble) [] hs) _
              (heading_sections-AreNested lines (length preamble) [] hs (places preamble)
                (preamble-Recalls (places preamble) first))
              λ sections q3 more.
                Ensures-bind (mapped_blocks tokens lines) _ (mapped_blocks-is tokens lines)
                  λ roots q4 same.
                    Ensures-bind (map_sections roots lines (preamble ++ sections)) _
                      (map_sections-places roots lines (preamble ++ sections))
                      λ mapped q5 kept.
                        let nested : AreNested [] (map place_of mapped) =
                          rw kept (join_nested preamble sections first more) in
                        Ensures-bind (check_parsed_markdown _) _ (check_parsed_markdown-Halts _)
                          λ u q6 h. returned _ nested
