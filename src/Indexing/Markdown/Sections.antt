-- ===== src/Indexing/Markdown/Sections.antt =====
-- The sections of a document, `parse`, `_section_blocks` and `_raw_gap` of
-- infrastructure/source/markdown.py.
use omf_retrieval.Indexing.Markdown.{Token}
use omf_retrieval.Indexing.Markdown.Blocks.{lines_text, mapped_blocks}
use omf_retrieval.Indexing.Markdown.Headings.{Heading, top_level_headings}
use omf_retrieval.Indexing.Ports.{split_physical_lines}
use omf_retrieval.Indexing.Structure.{
  ParsedBlock, ParsedMarkdown, ParsedSection, check_parsed_block, check_parsed_markdown,
  check_parsed_section, first_line, last_line, no_blocks, parsed_block,
}
use omf_retrieval.Prelude.{
  List, Option, Result, [], if◌then◌else◌, leb, length, ltb, none, ok, some, ℕ, ◌++◌, ◌+◌, ◌-◌,
  ◌>>=◌, ◌>>◌, ◌||◌, ◌∷◌,
}
use omf_retrieval.Prelude.Text.{Text, codes, is_blank}

-- a block for lines that no token maps
unfoldable pub gap_block : List Text → ℕ → ℕ → ParsedBlock
unfolding lines_text is_blank
gap_block source_lines line_start line_end =
    let raw_text = lines_text source_lines (line_start - 1) line_end in
    let kind = if is_blank raw_text then codes "blank" else codes "raw" in
    parsed_block kind raw_text line_start line_end no_blocks

unfoldable pub raw_gap : List Text → ℕ → ℕ → Result ParsedBlock
raw_gap source_lines line_start line_end =
    let gap = gap_block source_lines line_start line_end in check_parsed_block gap >> ok gap

-- the lines from `cursor` to `line_end`, if there are any
unfoldable pub gap_to : List Text → ℕ → ℕ → Result (List ParsedBlock)
gap_to source_lines cursor line_end =
    if leb cursor line_end
    then (raw_gap source_lines cursor line_end >>= λ gap. ok (gap ∷ []))
    else ok []

-- the loop of `_section_blocks`
unfoldable pub fill_section : List Text → ℕ → ℕ → ℕ → List ParsedBlock → Result (List ParsedBlock)
fill_section source_lines line_start line_end cursor [] = gap_to source_lines cursor line_end
fill_section source_lines line_start line_end cursor (b ∷ bs) =
    let skipped = fill_section source_lines line_start line_end cursor bs in
    let after = fill_section source_lines line_start line_end (last_line b + 1) bs in
    if ltb (last_line b) line_start
    then skipped
    else if ltb line_end (first_line b)
    then gap_to source_lines cursor line_end
    else if ltb (first_line b) line_start || ltb line_end (last_line b)
    then skipped
    else gap_to source_lines cursor (first_line b - 1) >>= λ gap.
        after >>= λ rest. ok (gap ++ b ∷ rest)

unfoldable pub section_blocks : List ParsedBlock → List Text → ℕ → ℕ → Result (List ParsedBlock)
section_blocks top_level_blocks source_lines line_start line_end =
    if ltb line_end line_start
    then ok []
    else fill_section source_lines line_start line_end line_start top_level_blocks

-- an entry of `heading_stack`
pub record HeadingEntry : Type 0 where
  pub level : ℕ
  pub ordinal : ℕ
  pub path : List Text

unfoldable pub pop_stack : ℕ → List HeadingEntry → List HeadingEntry
pop_stack level [] = []
pop_stack level (e ∷ es) =
    let rest = pop_stack level es in if leb level e.level then rest else e ∷ es

abbrev pub parent_ordinal_of : List HeadingEntry → Option ℕ
parent_ordinal_of [] = none
parent_ordinal_of (e ∷ es) = some e.ordinal

abbrev pub parent_path_of : List HeadingEntry → List Text
parent_path_of [] = []
parent_path_of (e ∷ es) = e.path

-- a section, and the line on which its body starts
abbrev pub Started : Type 0
Started = ParsedSection × ℕ

unfoldable pub checked_section : ParsedSection → Result ParsedSection
checked_section s = check_parsed_section s >> ok s

-- what stands before the first heading
unfoldable pub preamble_of : List Text → ℕ → ParsedSection
preamble_of source_lines first_heading_line = record {
  ordinal = 0;
  parent_ordinal = none;
  level = 0;
  heading = none;
  heading_path = [];
  body = lines_text source_lines 0 (first_heading_line - 1);
  line_start = 1;
  line_end = first_heading_line - 1;
  blocks = [];
}

unfoldable pub preamble_section : List Text → ℕ → Result (List Started)
preamble_section source_lines first_heading_line =
    if is_blank (lines_text source_lines 0 (first_heading_line - 1))
    then ok []
    else checked_section (preamble_of source_lines first_heading_line) >>= λ s. ok ((s, 1) ∷ [])

-- the line of the next heading, or the one after the last
abbrev pub next_line : List Text → List Heading → ℕ
next_line source_lines [] = length source_lines + 1
next_line source_lines (h ∷ hs) = h.line_start

-- the section of a heading; `stack` holds the headings that it is under
unfoldable pub heading_section : List Text → ℕ → List HeadingEntry → Heading → ℕ → ParsedSection
unfolding lines_text
heading_section source_lines ordinal stack h next_line_start = record {
  ordinal = ordinal;
  parent_ordinal = parent_ordinal_of stack;
  level = h.level;
  heading = some h.text;
  heading_path = parent_path_of stack ++ h.text ∷ [];
  body = lines_text source_lines (h.line_after - 1) (next_line_start - 1);
  line_start = h.line_start;
  line_end = next_line_start - 1;
  blocks = [];
}

unfoldable pub entry_of : ParsedSection → HeadingEntry
entry_of s = record { level = s.level; ordinal = s.ordinal; path = s.heading_path }

-- the loop over the headings
unfoldable pub heading_sections :
    List Text → ℕ → List HeadingEntry → List Heading → Result (List Started)
heading_sections source_lines ordinal stack [] = ok []
heading_sections source_lines ordinal stack (h ∷ hs) =
    let above = pop_stack h.level stack in
    let s = heading_section source_lines ordinal above h (next_line source_lines hs) in
    checked_section s >>= λ s'.
    heading_sections source_lines (ordinal + 1) (entry_of s ∷ above) hs >>= λ rest.
    ok ((s', h.line_after) ∷ rest)

-- `replace(section, blocks=...)` for each section
unfoldable pub map_sections :
    List ParsedBlock → List Text → List Started → Result (List ParsedSection)
map_sections top_level_blocks source_lines [] = ok []
map_sections top_level_blocks source_lines ((s, body_start) ∷ sections) = do
  blocks ← section_blocks top_level_blocks source_lines body_start s.line_end
  s' ← checked_section (record s { blocks = blocks })
  rest ← map_sections top_level_blocks source_lines sections
  ok (s' ∷ rest)

abbrev pub parser_version : Text
parser_version = codes "markdown-it-py-4.2.0-omf-v1"

-- `parse`, with the call of markdown-it
unfoldable pub parse : (Text → Result (List Token)) → Text → Result ParsedMarkdown
parse markdown_it source =
    let source_lines = split_physical_lines source in
    markdown_it source >>= λ tokens. top_level_headings tokens >>= λ headings.
    preamble_section source_lines (next_line source_lines headings) >>= λ preamble.
    heading_sections source_lines (length preamble) [] headings >>= λ sections.
    mapped_blocks tokens source_lines >>= λ top_level_blocks.
    map_sections top_level_blocks source_lines (preamble ++ sections) >>= λ mapped.
    let m : ParsedMarkdown = record { parser_version = parser_version; sections = mapped } in
    check_parsed_markdown m >> ok m
