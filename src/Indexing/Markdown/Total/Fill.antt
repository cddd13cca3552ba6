-- ===== src/Indexing/Markdown/Total/Fill.antt =====
-- The blocks of a section of infrastructure/source/markdown.py are within its lines.
use omf_retrieval.Indexing.Markdown.Checks.{check_parsed_block-Halts}
use omf_retrieval.Indexing.Markdown.Sections.{
  fill_section, gap_block, gap_to, raw_gap, section_blocks,
}
use omf_retrieval.Indexing.Structure.{ParsedBlock, check_parsed_block, first_line, last_line}
use omf_retrieval.Prelude.{All, All-append, List, [], arith, leb, ltb, ℕ, ◌+◌, ◌-◌, ◌||◌, ◌∷◌, ◌≤◌}
use omf_retrieval.Prelude.Ensures.{Ensures, Ensures-bind, Ensures-branch, Ensures-if, returned}
use omf_retrieval.Prelude.Text.{Text}

abbrev pub IsBetween : ℕ → ℕ → ParsedBlock → Type 0
IsBetween i j b = (i ≤ first_line b) × (last_line b ≤ j)

module _ (source_lines : List Text) (i j : ℕ) where
  raw_gap-IsBetween : (a z : ℕ) → i ≤ a → z ≤ j → Ensures (IsBetween i j) (raw_gap source_lines a z)
  unfolding raw_gap gap_block
  raw_gap-IsBetween a z h k =
      let gap = gap_block source_lines a z in
      Ensures-bind (check_parsed_block gap) _ (check_parsed_block-Halts gap)
        λ u q h'. returned gap (h, k)

  gap_to-IsBetween :
      (a z : ℕ) → i ≤ a → z ≤ j → Ensures (All (IsBetween i j)) (gap_to source_lines a z)
  unfolding gap_to
  gap_to-IsBetween a z h k =
      Ensures-branch (leb a z) _ _
        (Ensures-bind (raw_gap source_lines a z) _ (raw_gap-IsBetween a z h k)
          λ gap q within. returned (gap ∷ []) (within, tt))
        (returned [] tt)

  fill_section-IsBetween :
      (cursor : ℕ) (bs : List ParsedBlock)
      → i ≤ cursor
      → Ensures (All (IsBetween i j)) (fill_section source_lines i j cursor bs)
  unfolding fill_section
  fill_section-IsBetween cursor [] h = gap_to-IsBetween cursor j h (omega arith)
  fill_section-IsBetween cursor (b ∷ bs) h =
      let skipped = fill_section-IsBetween cursor bs h in
      Ensures-if (ltb (last_line b) i) _ _ (λ e. skipped)
        λ behind.
          Ensures-if (ltb j (first_line b)) _ _ (λ e. gap_to-IsBetween cursor j h (omega arith))
            λ before.
              Ensures-if (ltb (first_line b) i || ltb j (last_line b)) _ _ (λ e. skipped)
                λ inside.
                  Ensures-bind (gap_to source_lines cursor (first_line b - 1)) _
                    (gap_to-IsBetween cursor (first_line b - 1) h (ground arith))
                    λ gap q first.
                      Ensures-bind (fill_section source_lines i j (last_line b + 1) bs) _
                        (fill_section-IsBetween (last_line b + 1) bs (ground arith))
                        λ rest q' more. returned _ (
                          All-append (IsBetween i j) gap (b ∷ rest) first
                            ((ground arith, ground arith), more))

  pub section_blocks-IsBetween :
      (bs : List ParsedBlock) → Ensures (All (IsBetween i j)) (section_blocks bs source_lines i j)
  unfolding section_blocks
  section_blocks-IsBetween bs =
      Ensures-branch (ltb j i) _ _ (returned [] tt) (fill_section-IsBetween i bs (omega arith))
