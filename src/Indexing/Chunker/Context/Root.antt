-- ===== src/Indexing/Chunker/Context/Root.antt =====
-- What infrastructure/source/markdown.py makes of a text without headings is one section, which
-- `_valid_reparsed_root` of infrastructure/source/chunker.py accepts.
use mathlib.Core.List.{append-nil}
use mathlib.Core.Path.{subst}
use omf_retrieval.Indexing.Chunker.Context.Fills.{section_blocks-meet}
use omf_retrieval.Indexing.Chunker.Context.Parts.{blocks_meet, valid_reparsed_root}
use omf_retrieval.Indexing.Chunker.Context.Place.{lines_text_prefix}
use omf_retrieval.Indexing.Markdown.{Token}
use omf_retrieval.Indexing.Markdown.Blocks.{lines_text, mapped_blocks}
use omf_retrieval.Indexing.Markdown.Blocks.Outline.{AreInOrder, Laid, span}
use omf_retrieval.Indexing.Markdown.Blocks.Roots.{roots-Laid}
use omf_retrieval.Indexing.Markdown.Checks.{
  check_parsed_markdown-Halts, checked_section-is, mapped_blocks-is,
}
use omf_retrieval.Indexing.Markdown.Headings.{top_level_headings}
use omf_retrieval.Indexing.Markdown.Sections.{
  checked_section, heading_sections, map_sections, parse, parser_version, preamble_of,
  preamble_section, section_blocks,
}
use omf_retrieval.Indexing.Ports.{split_physical_lines}
use omf_retrieval.Indexing.Ports.Lines.{joined, split_physical_lines-AreLines}
use omf_retrieval.Indexing.Structure.{
  ParsedBlock, ParsedMarkdown, ParsedSection, check_parsed_markdown,
}
use omf_retrieval.Prelude.{
  &&-intro, List, Result, [], ap, arith, false, length, map, nat_beq_iff, not, ok, refl, sym, take,
  true, true-ne-false, ℕ, ◌++◌, ◌+◌, ◌-◌, ◌∙◌, ◌∷◌, ◌≡◌, ◌≤◌,
}
use omf_retrieval.Prelude.Ensures.{Ensures, Ensures-bind, Ensures-if, returned}
use omf_retrieval.Prelude.Text.{Text, is_blank, is_empty, lstrip, strip}

take_whole : (ls : List Text) → take (length ls) ls ≡ ls
unfolding take
take_whole [] = refl
take_whole (l ∷ ls) = ap (λ m. l ∷ m) (take_whole ls)

whole_text :
    (source : Text)
    → lines_text (split_physical_lines source) 0 (length (split_physical_lines source)) ≡ source
whole_text source =
    let lines = split_physical_lines source in
    lines_text_prefix lines (length lines)
    ∙ ap joined (take_whole lines)
    ∙ (split_physical_lines-AreLines source).0

-- a text that is not blank has a line
pub nonblank_lines :
    (source : Text) → is_blank source ≡ false → 1 ≤ length (split_physical_lines source)
unfolding is_blank strip lstrip joined
nonblank_lines source h =
    elim (split_physical_lines source) as (λ l. joined l ≡ source → 1 ≤ length l) [
      | [] ↦ λ e. absurd (true-ne-false (ap is_blank e ∙ h))
      | l ∷ ls ↦ λ e. omega arith
    ]
      (split_physical_lines-AreLines source).0

-- the one section of a text without headings
pub record IsRoot (source : Text) (m : ParsedMarkdown) : Type 0 where
  pub root : ParsedSection
  pub version : m.parser_version ≡ parser_version
  pub only : m.sections ≡ root ∷ []
  pub top : root.level ≡ 0
  pub whole : root.body ≡ source
  pub valid : valid_reparsed_root root source ≡ true

preamble_section-is :
    (lines : List Text) (n : ℕ)
    → is_blank (lines_text lines 0 (n - 1)) ≡ false
    → Ensures (λ ss. ss ≡ (preamble_of lines n, 1) ∷ []) (preamble_section lines n)
unfolding preamble_section
preamble_section-is lines n h =
    Ensures-if (is_blank (lines_text lines 0 (n - 1))) _ _ (λ e. absurd (true-ne-false (sym e ∙ h)))
      λ e.
        Ensures-bind (checked_section (preamble_of lines n)) _
          (checked_section-is (preamble_of lines n))
          λ s q same. returned _ (ap (λ s'. (s', 1) ∷ []) same.0)

some_block :
    (lines : List Text) (blocks : List ParsedBlock)
    → 1 ≤ length lines
    → blocks_meet lines 1 blocks ≡ true
    → is_empty blocks ≡ false
unfolding blocks_meet
some_block lines [] h meets = absurd (ground (arith, nat_beq_iff 1 (length lines + 1)))
some_block lines (b ∷ bs) h meets = refl

module _ (source : Text) where
  root_of : List ParsedBlock → ParsedSection
  root_of blocks =
      record (preamble_of (split_physical_lines source)
        (length (split_physical_lines source) + 1)) { blocks = blocks }

  root_valid :
      (blocks : List ParsedBlock)
      → is_blank source ≡ false
      → blocks_meet (split_physical_lines source) 1 blocks ≡ true
      → valid_reparsed_root (root_of blocks) source ≡ true
  unfolding valid_reparsed_root preamble_of root_of
  root_valid blocks h meets =
      let lines = split_physical_lines source in
      let last : length lines + 1 - 1 ≡ length lines = omega arith in
      let some_blocks : not (is_empty blocks) ≡ true =
        ap not (some_block lines blocks (nonblank_lines source h) meets) in
      &&-intro _ _
        (&&-intro _ _
          (&&-intro _ _ refl ((nat_beq_iff (length lines + 1 - 1) (length lines)).1 last))
          some_blocks)
        meets

  -- one section, which is accepted
  abbrev IsOne : List ParsedSection → Type 0
  IsOne ss =
      (root : ParsedSection) × ((ss ≡ root ∷ [])
        × ((root.level ≡ 0) × ((root.body ≡ source) × (valid_reparsed_root root source ≡ true))))

  map_section-IsRoot :
      (roots : List ParsedBlock) (n : ℕ)
      → is_blank source ≡ false
      → Laid (split_physical_lines source) 0 (map span roots) n
      → Ensures IsOne (
          map_sections roots (split_physical_lines source) (
            (
              preamble_of (split_physical_lines source) (length (split_physical_lines source) + 1),
              1,
            )
            ∷ []))
  unfolding map_sections preamble_of root_of
  map_section-IsRoot roots n h laid =
      let lines = split_physical_lines source in
      let last : length lines + 1 - 1 ≡ length lines = omega arith in
      let meet =
        subst (λ j. Ensures (λ l. blocks_meet lines 1 l ≡ true) (section_blocks roots lines 1 j))
          (sym last) (section_blocks-meet lines roots n laid (nonblank_lines source h)) in
      Ensures-bind (section_blocks roots lines 1 (length lines + 1 - 1)) _ meet λ blocks q meets.
        Ensures-bind (checked_section (root_of blocks)) _ (checked_section-is (root_of blocks))
          λ s q' same. returned _ (
            root_of blocks,
            (
              ap (λ s'. s' ∷ []) same.0,
              (
                refl,
                (
                  ap (λ j. lines_text lines 0 j) last ∙ whole_text source,
                  root_valid blocks h meets,
                ),
              ),
            ),
          )

pub parse-IsRoot :
    (markdown_it : Text → Result (List Token)) (source : Text) (tokens : List Token)
    → markdown_it source ≡ ok tokens
    → AreInOrder false 0 tokens
    → top_level_headings tokens ≡ ok []
    → is_blank source ≡ false
    → Ensures (IsRoot source) (parse markdown_it source)
unfolding parse heading_sections
parse-IsRoot markdown_it source tokens e order none_found h =
    let lines = split_physical_lines source in
    let last : length lines + 1 - 1 ≡ length lines = omega arith in
    let nonblank : is_blank (lines_text lines 0 (length lines + 1 - 1)) ≡ false =
      ap is_blank (ap (λ j. lines_text lines 0 j) last ∙ whole_text source) ∙ h in
    let laid = roots-Laid lines tokens order in
    rw (e, none_found)
      (Ensures-bind (preamble_section lines (length lines + 1)) _
        (preamble_section-is lines (length lines + 1) nonblank)
        λ preamble q first.
          Ensures-bind (mapped_blocks tokens lines) _ (mapped_blocks-is tokens lines)
            λ roots q' same.
              let mapped =
                map_section-IsRoot source roots laid.0 h
                  (subst (λ bs. Laid lines 0 (map span bs) laid.0) (sym same) laid.1) in
              let started : preamble ++ [] ≡ (preamble_of lines (length lines + 1), 1) ∷ [] =
                append-nil preamble ∙ first in
              Ensures-bind (map_sections roots lines (preamble ++ [])) _
                (subst (λ l. Ensures (IsOne source) (map_sections roots lines l)) (sym started)
                  mapped)
                λ ss q2 (root, (only, (top, (whole, valid)))).
                  Ensures-bind (check_parsed_markdown _) _ (check_parsed_markdown-Halts _) λ u q3 k.
                    returned _ (record {
                      root = root;
                      version = refl;
                      only = only;
                      top = top;
                      whole = whole;
                      valid = valid;
                    }))
