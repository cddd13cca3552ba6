-- ===== src/Indexing/Markdown/Total/Parsing.antt =====
-- `parse` of infrastructure/source/markdown.py returns on what markdown-it makes of a document.
use omf_retrieval.Indexing.Markdown.{Token}
use omf_retrieval.Indexing.Markdown.Blocks.{all_roots}
use omf_retrieval.Indexing.Markdown.Blocks.Outline.{AreInOrder, Laid, span}
use omf_retrieval.Indexing.Markdown.Blocks.Roots.{roots-Laid}
use omf_retrieval.Indexing.Markdown.Coverage.{section_blocks_returns}
use omf_retrieval.Indexing.Markdown.Coverage.Parsing.{IsCovered, parse-IsCovered}
use omf_retrieval.Indexing.Markdown.Nesting.{AreNested, place_of}
use omf_retrieval.Indexing.Markdown.Nesting.Parsing.{parse-AreNested}
use omf_retrieval.Indexing.Markdown.Sections.{
  Started, map_sections, next_line, parse, parser_version,
}
use omf_retrieval.Indexing.Markdown.Total.Fill.{IsBetween, section_blocks-IsBetween}
use omf_retrieval.Indexing.Markdown.Total.Ready.{
  IsReady, heading_sections_returns, preamble_returns, sections_of, sequential-append,
}
use omf_retrieval.Indexing.Markdown.Total.Sections.{
  HaveHeadings, IsInOrder, checked_section_ok, top_level_headings_returns,
}
use omf_retrieval.Indexing.Markdown.Total.Tokens.{mapped_blocks-ok}
use omf_retrieval.Indexing.Markdown.Total.Trees.{AreWithin}
use omf_retrieval.Indexing.Ports.{split_physical_lines}
use omf_retrieval.Indexing.Structure.{
  ParsedBlock, ParsedMarkdown, ParsedSection, check_parsed_markdown, first_line, has_heading,
  is_inside, is_sequential, last_line,
}
use omf_retrieval.Prelude.{
  &&-intro, All, All-append, List, Result, [], all, ap, arith, false, length, length-map, le→leb,
  map, nat_beq, ok, refl, true, ℕ, ◌&&◌, ◌++◌, ◌+◌, ◌∙◌, ◌∷◌, ◌≡◌, ◌≤◌,
}
use omf_retrieval.Prelude.Ensures.{Ensures, Ensures-at, Halts, returned}
use omf_retrieval.Prelude.Text.{Text}

-- What markdown-it makes of a source: its blocks are in the order of their lines and one within the
-- other, and its headings are in order, of the levels from 1 to 6 and before the last line's end.
pub record IsDocument (source : Text) (tokens : List Token) : Type 0 where
  pub ordered : AreInOrder false 0 tokens
  pub within : AreWithin [] tokens
  pub headings : HaveHeadings (length (split_physical_lines source)) 0 tokens

within-all :
    (a i j : ℕ) (bs : List ParsedBlock)
    → a ≤ i
    → All (IsBetween i j) bs
    → all (is_inside a j) bs ≡ true
unfolding all is_inside
within-all a i j [] h each = refl
within-all a i j (b ∷ bs) h each =
    &&-intro _ _
      (&&-intro _ _ (le→leb a (first_line b) (omega (arith, each.0.0)))
        (le→leb (last_line b) j each.0.1))
      (within-all a i j bs h each.1)

with_blocks-IsInOrder :
    (s : ParsedSection) (bs : List ParsedBlock) → IsInOrder s → IsInOrder (record s { blocks = bs })
unfolding has_heading
with_blocks-IsInOrder s bs o = record {
  earlier = o.earlier;
  bounded = o.bounded;
  headed = o.headed;
  ranged = o.ranged;
}

-- every section gets its blocks
map_sections_returns :
    (bs : List ParsedBlock) (m : ℕ) (source_lines : List Text) (sections : List Started)
    → Laid source_lines 0 (map span bs) m
    → All IsReady sections
    → (ss : List ParsedSection) × ((map_sections bs source_lines sections ≡ ok ss)
        × ((n : ℕ) → is_sequential n ss ≡ is_sequential n (sections_of sections)))
unfolding map_sections is_sequential sections_of
map_sections_returns bs m source_lines [] laid h = ([], (refl, λ n. refl))
map_sections_returns bs m source_lines ((s, body_start) ∷ sections) laid h =
    let found = section_blocks_returns source_lines bs m body_start s.line_end laid h.0.counted in
    let inside =
      Ensures-at (section_blocks-IsBetween source_lines body_start s.line_end bs) found.1.0 in
    let s' : ParsedSection = record s { blocks = found.0 } in
    let passes =
      checked_section_ok s' (with_blocks-IsInOrder s found.0 h.0.passes)
        (within-all s.line_start body_start s.line_end found.0 h.0.behind inside) in
    let rest = map_sections_returns bs m source_lines sections laid h.1 in
    (
      s' ∷ rest.0,
      (
        rw (found.1.0, passes, rest.1.0) refl,
        λ n. ap (λ b. nat_beq s.ordinal n && b) (rest.1.1 (n + 1)),
      ),
    )

sections_of-append :
    (ss ts : List Started) → sections_of (ss ++ ts) ≡ sections_of ss ++ sections_of ts
unfolding sections_of
sections_of-append [] ts = refl
sections_of-append (s ∷ ss) ts = ap (λ l. s.0 ∷ l) (sections_of-append ss ts)

numbered_sections :
    (ss ts : List Started)
    → is_sequential 0 (sections_of ss) ≡ true
    → is_sequential (length ss) (sections_of ts) ≡ true
    → is_sequential 0 (sections_of (ss ++ ts)) ≡ true
unfolding sections_of
numbered_sections ss ts h k =
    let size : 0 + length (sections_of ss) ≡ length ss =
      omega (arith, length-map (λ (s : Started). s.0) ss) in
    rw (sections_of-append ss ts)
      (sequential-append 0 (sections_of ss) (sections_of ts) h (rw size k))

-- Where markdown-it returns tokens of a document, `parse` returns.
pub parse_returns :
    (markdown_it : Text → Result (List Token)) (source : Text) (tokens : List Token)
    → markdown_it source ≡ ok tokens
    → IsDocument source tokens
    → (m : ParsedMarkdown) × (parse markdown_it source ≡ ok m)
unfolding parse check_parsed_markdown
parse_returns markdown_it source tokens e d =
    let lines = split_physical_lines source in
    let hs = top_level_headings_returns tokens (length lines) 0 d.headings in
    let preamble = preamble_returns lines (next_line lines hs.0) in
    let sections =
      heading_sections_returns lines (length preamble.0) [] 1 hs.0 tt (omega arith) hs.1.1 in
    let laid = roots-Laid lines tokens d.ordered in
    let mapped =
      map_sections_returns (all_roots tokens lines) laid.0 lines (preamble.0 ++ sections.0) laid.1
        (All-append IsReady preamble.0 sections.0 preamble.1.1.0 sections.1.1.0) in
    let numbered = numbered_sections preamble.0 sections.0 preamble.1.1.1 sections.1.1.1 in
    let sequential = mapped.1.1 0 ∙ numbered in
    (
      record { parser_version = parser_version; sections = mapped.0 },
      rw
          (
            e,
            hs.1.0,
            preamble.1.0,
            sections.1.0,
            mapped_blocks-ok tokens lines d.within,
            mapped.1.0,
            sequential,
          )
          refl,
    )

-- Where markdown-it returns tokens of a document, with its blocks in the order of their lines and one
-- within the other, and its headings in order and of the levels from 1 to 6, `parse` returns, and for
-- each section that it returns: its body is lines of the source to the section's end; the texts of
-- its blocks, those of the tokens and the gaps between them, put together are its body to the
-- character; and its parent is the last earlier section with a heading of a smaller level.
pub parse_total :
    (markdown_it : Text → Result (List Token)) (source : Text) (tokens : List Token)
    → markdown_it source ≡ ok tokens
    → IsDocument source tokens
    → (m : ParsedMarkdown) × ((parse markdown_it source ≡ ok m)
        × (All (IsCovered (split_physical_lines source)) m.sections
            × AreNested [] (map place_of m.sections)))
parse_total markdown_it source tokens e d =
    let found = parse_returns markdown_it source tokens e d in
    let ordered : Ensures (AreInOrder false 0) (markdown_it source) =
      rw e (returned tokens d.ordered) in
    let halts : Halts (markdown_it source) = rw e (returned tokens tt) in
    (
      found.0,
      (
        found.1,
        (
          Ensures-at (parse-IsCovered markdown_it source ordered) found.1,
          Ensures-at (parse-AreNested markdown_it source halts) found.1,
        ),
      ),
    )
