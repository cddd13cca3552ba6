-- ===== src/Indexing/Chunker/Context/Fills.antt =====
-- The blocks that infrastructure/source/markdown.py makes of a text without headings meet, as
-- `_valid_reparsed_root` of infrastructure/source/chunker.py asks.
use mathlib.Core.List.{append-nil}
use mathlib.Core.Path.{subst}
use omf_retrieval.Indexing.Chunker.Context.Parts.{blocks_meet}
use omf_retrieval.Indexing.Markdown.Blocks.{lines_text}
use omf_retrieval.Indexing.Markdown.Blocks.Outline.{Laid, span}
use omf_retrieval.Indexing.Markdown.Checks.{check_parsed_block-Halts}
use omf_retrieval.Indexing.Markdown.Sections.{
  fill_section, gap_block, gap_to, raw_gap, section_blocks,
}
use omf_retrieval.Indexing.Structure.{
  ParsedBlock, block_text, check_parsed_block, first_line, last_line,
}
use omf_retrieval.Prelude.{
  &&-intro, ==_refl, List, [], arith, inl, inr, leb, length, le→leb, list_eq, ltb, map, nat_beq_iff,
  nat_eq, refl, sym, true, ℕ, ◌++◌, ◌+◌, ◌-◌, ◌||◌, ◌∷◌, ◌≡◌, ◌≤◌, ◌⊎◌,
}
use omf_retrieval.Prelude.Ensures.{Ensures, Ensures-bind, Ensures-if, Ensures-imp, returned}
use omf_retrieval.Prelude.Text.{Text}

module _ (source_lines : List Text) where
  -- a block at the cursor, and blocks behind it
  block_meets :
      (cursor : ℕ) (b : ParsedBlock) (bs : List ParsedBlock)
      → first_line b ≡ cursor
      → last_line b ≤ length source_lines
      → block_text b ≡ lines_text source_lines (first_line b - 1) (last_line b)
      → blocks_meet source_lines (last_line b + 1) bs ≡ true
      → blocks_meet source_lines cursor (b ∷ bs) ≡ true
  unfolding blocks_meet
  block_meets cursor b bs first last text rest =
      &&-intro _ _
        (&&-intro _ _
          (&&-intro _ _ ((nat_beq_iff (first_line b) cursor).1 first)
            (le→leb (last_line b) (length source_lines) last))
          (rw text (==_refl (lines_text source_lines (first_line b - 1) (last_line b)))))
        rest

  meet_nil :
      (cursor : ℕ) → cursor ≡ length source_lines + 1 → blocks_meet source_lines cursor [] ≡ true
  unfolding blocks_meet
  meet_nil cursor e = (nat_beq_iff cursor (length source_lines + 1)).1 e

  -- a gap up to a line, and blocks behind it
  IsGap : ℕ → ℕ → List ParsedBlock → Type 0
  IsGap cursor j gap =
      (bs : List ParsedBlock)
      → blocks_meet source_lines (j + 1) bs ≡ true
      → blocks_meet source_lines cursor (gap ++ bs) ≡ true

  raw_gap-is :
      (i j : ℕ) → Ensures (λ gap. gap ≡ gap_block source_lines i j) (raw_gap source_lines i j)
  unfolding raw_gap
  raw_gap-is i j =
      let gap = gap_block source_lines i j in
      Ensures-bind (check_parsed_block gap) _ (check_parsed_block-Halts gap)
        λ u q h. returned gap refl

  gap_block-IsGap :
      (cursor j : ℕ)
      → j ≤ length source_lines
      → IsGap cursor j (gap_block source_lines cursor j ∷ [])
  unfolding gap_block IsGap
  gap_block-IsGap cursor j k bs =
      block_meets cursor (gap_block source_lines cursor j) bs refl k refl

  gap_to-IsGap :
      (cursor j : ℕ)
      → cursor ≤ j + 1
      → j ≤ length source_lines
      → Ensures (IsGap cursor j) (gap_to source_lines cursor j)
  unfolding gap_to IsGap
  gap_to-IsGap cursor j h k =
      Ensures-if (leb cursor j) _ _
        (λ e. Ensures-bind (raw_gap source_lines cursor j) _ (raw_gap-is cursor j) λ gap q same.
          returned (gap ∷ [])
            (subst (λ g. IsGap cursor j (g ∷ [])) (sym same) (gap_block-IsGap cursor j k)))
        (λ e.
          let at : j + 1 ≡ cursor = ground arith in
          returned [] (λ bs meet. subst (λ c. blocks_meet source_lines c bs ≡ true) at meet))

  -- the gap up to the last line
  last_gap :
      (cursor : ℕ)
      → cursor ≤ length source_lines + 1
      → Ensures
          (λ bs. blocks_meet source_lines cursor bs ≡ true)
          (gap_to source_lines cursor (length source_lines))
  unfolding IsGap
  last_gap cursor h =
      Ensures-imp
        (λ gap meets.
          subst (λ l. blocks_meet source_lines cursor l ≡ true) (append-nil gap)
            (meets [] (meet_nil (length source_lines + 1) refl)))
        (gap_to-IsGap cursor (length source_lines) h (omega arith))

  fill_section-meets :
      (i : ℕ) (bs : List ParsedBlock) (n m cursor : ℕ)
      → 1 ≤ i
      → Laid source_lines n (map span bs) m
      → i ≤ cursor
      → (cursor ≤ i) ⊎ (cursor ≤ n + 1)
      → cursor ≤ length source_lines + 1
      → Ensures
          (λ l. blocks_meet source_lines cursor l ≡ true)
          (fill_section source_lines i (length source_lines) cursor bs)
  unfolding fill_section span IsGap
  fill_section-meets i [] n m cursor h laid after at k = last_gap cursor k
  fill_section-meets i (b ∷ bs) n m cursor h laid after at k =
      let (behind, (inside, (text, laid'))) = laid in
      let skipped =
        fill_section-meets i bs (last_line b) m cursor h laid' after
          (elim at [ inl low ↦ inl low | inr low ↦ inr (omega (arith, low, behind, inside)) ]) k in
      Ensures-if (ltb (last_line b) i) _ _ (λ e. skipped)
        λ e.
          Ensures-if (ltb (length source_lines) (first_line b)) _ _ (λ e'. last_gap cursor k)
            λ e'.
              Ensures-if (ltb (first_line b) i || ltb (length source_lines) (last_line b)) _ _
                (λ e''. skipped)
                λ e''.
                  let before : cursor ≤ first_line b = elim at [
                    | inl low ↦ ground arith
                    | inr low ↦ ground arith
                  ] in
                  let within : last_line b ≤ length source_lines = ground arith in
                  let there : first_line b - 1 + 1 ≡ first_line b = ground arith in
                  Ensures-bind (gap_to source_lines cursor (first_line b - 1)) _
                    (gap_to-IsGap cursor (first_line b - 1) (omega arith) (omega arith))
                    λ gap q meets.
                      Ensures-bind
                        (fill_section source_lines i (length source_lines) (last_line b + 1) bs) _
                        (fill_section-meets i bs (last_line b) m (last_line b + 1) h laid'
                          (ground arith) (inr (omega arith)) (omega arith))
                        λ rest q' more. returned _ (
                          meets (b ∷ rest) (
                            block_meets (first_line b - 1 + 1) b rest (sym there) within text more))

  pub section_blocks-meet :
      (bs : List ParsedBlock) (m : ℕ)
      → Laid source_lines 0 (map span bs) m
      → 1 ≤ length source_lines
      → Ensures
          (λ l. blocks_meet source_lines 1 l ≡ true)
          (section_blocks bs source_lines 1 (length source_lines))
  unfolding section_blocks
  section_blocks-meet bs m laid h =
      Ensures-if (ltb (length source_lines) 1) _ _ (λ e. absurd (ground arith))
        λ e.
          fill_section-meets 1 bs 0 m 1 (omega arith) laid (omega arith) (inl (omega arith))
            (omega arith)
