-- ===== src/Indexing/Markdown/Total/Ready.antt =====
-- The sections of infrastructure/source/markdown.py, before their blocks are made, are numbered from 0
-- and pass their checks.
use native.Mathlib.Decide.{dec_lt}
use omf_retrieval.Indexing.Markdown.Blocks.{lines_text}
use omf_retrieval.Indexing.Markdown.Headings.{Heading}
use omf_retrieval.Indexing.Markdown.Sections.{
  HeadingEntry, Started, entry_of, heading_section, heading_sections, next_line, pop_stack,
  preamble_of, preamble_section,
}
use omf_retrieval.Indexing.Markdown.Total.Sections.{
  AreHeadings, IsInOrder, checked_section_ok, heading_section-IsInOrder, next_line-le,
  pop_stack-All,
}
use omf_retrieval.Indexing.Ports.Lines.{joined}
use omf_retrieval.Indexing.Structure.{ParsedSection, has_heading, is_sequential}
use omf_retrieval.Prelude.{
  &&-intro, &&-split, All, All-imp, Bool-cases, List, Result, [], all, arith, drop, false, inl, inr,
  length, le→leb, map, nat_refl, ok, refl, suc, take, true, true-ne-false, ℕ, ◌++◌, ◌+◌, ◌-◌, ◌<◌,
  ◌∷◌, ◌≡◌, ◌≤◌,
}
use omf_retrieval.Prelude.Slices.{slice}
use omf_retrieval.Prelude.Text.{Text, is_blank, lstrip, strip}

-- a section that passes with any blocks within its body, and is the one of its number
pub record IsReady (s : Started) : Type 0 where
  pub passes : IsInOrder s.0
  pub counted : 1 ≤ s.1
  pub behind : s.0.line_start ≤ s.1

unfoldable pub sections_of : List Started → List ParsedSection
sections_of ss = map (λ s. s.0) ss

abbrev pub ReturnsReady : ℕ → Result (List Started) → Type 0
ReturnsReady n r =
    (ss : List Started) × ((r ≡ ok ss)
      × (All (IsReady) ss × (is_sequential n (sections_of ss) ≡ true)))

pub sequential-append :
    (n : ℕ) (ss ts : List ParsedSection)
    → is_sequential n ss ≡ true
    → is_sequential (n + length ss) ts ≡ true
    → is_sequential n (ss ++ ts) ≡ true
unfolding is_sequential
sequential-append n [] ts h k = let same : n + 0 ≡ n = omega arith in rw same at k
sequential-append n (s ∷ ss) ts h k =
    let both = &&-split _ _ h in
    let same : n + suc (length ss) ≡ n + 1 + length ss = omega arith in
    &&-intro _ _ both.0 (sequential-append (n + 1) ss ts both.1 (rw same at k))

newer :
    (ordinal : ℕ) (stack : List HeadingEntry)
    → All (λ e. e.ordinal < ordinal) stack
    → All (λ e. e.ordinal < ordinal + 1) stack
newer ordinal stack h = All-imp _ _ (λ e older. omega (arith, older)) stack h

module _ (source_lines : List Text) where
  preamble_passes :
      (first_heading_line : ℕ)
      → is_blank (lines_text source_lines 0 (first_heading_line - 1)) ≡ false
      → IsInOrder (preamble_of source_lines first_heading_line)
  unfolding preamble_of has_heading is_blank strip lstrip lines_text joined slice take drop
  preamble_passes first_heading_line e = elim (dec_lt 0 (first_heading_line - 1)) [
    | yes p ↦ record {
      earlier = refl;
      bounded = refl;
      headed = refl;
      ranged = &&-intro _ _ refl (le→leb 1 (first_heading_line - 1) (omega arith));
    }
    | no p ↦
        let nothing : first_heading_line - 1 ≡ 0 = omega arith in
        absurd (true-ne-false (rw nothing at e))
  ]

  pub preamble_returns :
      (first_heading_line : ℕ) → ReturnsReady 0 (preamble_section source_lines first_heading_line)
  unfolding preamble_section preamble_of is_sequential sections_of all
  preamble_returns first_heading_line =
      elim (Bool-cases (is_blank (lines_text source_lines 0 (first_heading_line - 1)))) [
        | inl e ↦ ([], (rw e refl, (tt, refl)))
        | inr e ↦
            let passes = preamble_passes first_heading_line e in
            (
              (preamble_of source_lines first_heading_line, 1) ∷ [],
              (
                rw (e, checked_section_ok (preamble_of source_lines first_heading_line) passes refl)
                    refl,
                (
                  (record { passes = passes; counted = omega arith; behind = omega arith }, tt),
                  refl,
                ),
              ),
            )
      ]

  pub heading_sections_returns :
      (ordinal : ℕ) (stack : List HeadingEntry) (m : ℕ) (hs : List Heading)
      → All (λ e. e.ordinal < ordinal) stack
      → 1 ≤ m
      → AreHeadings (length source_lines) m hs
      → ReturnsReady ordinal (heading_sections source_lines ordinal stack hs)
  unfolding heading_sections heading_section entry_of is_sequential sections_of all
  heading_sections_returns ordinal stack m [] older first laid = ([], (refl, (tt, refl)))
  heading_sections_returns ordinal stack m (h ∷ hs) older first laid =
      let above = pop_stack h.level stack in
      let s = heading_section source_lines ordinal above h (next_line source_lines hs) in
      let older' = pop_stack-All (λ e. e.ordinal < ordinal) h.level stack older in
      let passes =
        heading_section-IsInOrder source_lines ordinal above h (next_line source_lines hs) older'
          (omega (arith, laid.0))
          (omega (arith, laid.1.0, next_line-le source_lines h.line_after hs laid.1.1.1))
          laid.1.1.0.0 laid.1.1.0.1 in
      let rest =
        heading_sections_returns (ordinal + 1) (entry_of s ∷ above) h.line_after hs
          (omega arith, newer ordinal above older') (omega (arith, laid.1.0)) laid.1.1.1 in
      (
        (s, h.line_after) ∷ rest.0,
        (
          rw (checked_section_ok s passes refl, rest.1.0) refl,
          (
            (
              record {
                passes = passes;
                counted = omega (arith, laid.1.0);
                behind = omega (arith, laid.1.0);
              },
              rest.1.1.0,
            ),
            &&-intro _ _ (nat_refl ordinal) rest.1.1.1,
          ),
        ),
      )
