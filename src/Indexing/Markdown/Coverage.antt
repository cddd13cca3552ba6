-- ===== src/Indexing/Markdown/Coverage.antt =====
-- The blocks of a section of infrastructure/source/markdown.py, with the gaps between them, are the
-- lines of its body.
pub mod Parsing
use mathlib.Core.List.{append-nil, append_assoc}
use mathlib.Core.Path.{ap₂}
use omf_retrieval.Indexing.Chunker.Source.Section.{blocks_text}
use omf_retrieval.Indexing.Markdown.Blocks.{lines_text}
use omf_retrieval.Indexing.Markdown.Blocks.Outline.{Laid, span}
use omf_retrieval.Indexing.Markdown.Sections.{
  fill_section, gap_block, gap_to, raw_gap, section_blocks,
}
use omf_retrieval.Indexing.Ports.Lines.{joined}
use omf_retrieval.Indexing.Structure.{
  ParsedBlock, block_text, check_parsed_block, children_of, first_line, last_line,
  require_inclusive_line_range, to_list,
}
use omf_retrieval.Prelude.{
  Bool-cases, List, Result, [], all, ap, arith, inl, inr, leb, leb→le, le→leb, ltb, map, ok, refl,
  sym, take, ℕ, ◌++◌, ◌+◌, ◌-◌, ◌>>=◌, ◌||◌, ◌∙◌, ◌∷◌, ◌≡◌, ◌≤◌, ◌⊎◌,
}
use omf_retrieval.Prelude.Slices.{slice}
use omf_retrieval.Prelude.Slices.Laws.{slice-append}
use omf_retrieval.Prelude.Text.{Text, is_blank}

pub joined-append : (ls ms : List Text) → joined (ls ++ ms) ≡ joined ls ++ joined ms
unfolding joined
joined-append [] ms = refl
joined-append (l ∷ ls) ms =
    ap (λ t. l ++ t) (joined-append ls ms) ∙ sym (append_assoc l (joined ls) (joined ms))

pub lines_text-append :
    (source_lines : List Text) (i j k : ℕ)
    → i ≤ j
    → j ≤ k
    → lines_text source_lines i j ++ lines_text source_lines j k ≡ lines_text source_lines i k
unfolding lines_text
lines_text-append source_lines i j k h h' =
    sym (joined-append (slice source_lines i j) (slice source_lines j k))
    ∙ ap joined (slice-append source_lines i j k h h')

lines_text_empty : (source_lines : List Text) (i j : ℕ) → j ≤ i → lines_text source_lines i j ≡ []
unfolding lines_text joined slice take
lines_text_empty source_lines i j h = let none_left : j - i ≡ 0 = omega arith in rw none_left refl

blocks_text-append :
    (bs cs : List ParsedBlock) → blocks_text (bs ++ cs) ≡ blocks_text bs ++ blocks_text cs
unfolding blocks_text
blocks_text-append [] cs = refl
blocks_text-append (b ∷ bs) cs =
    ap (λ t. block_text b ++ t) (blocks_text-append bs cs)
    ∙ sym (append_assoc (block_text b) (blocks_text bs) (blocks_text cs))

-- the call returns blocks with this text
abbrev ReturnsText : Text → Result (List ParsedBlock) → Type 0
ReturnsText text r = (bs : List ParsedBlock) × ((r ≡ ok bs) × (blocks_text bs ≡ text))

module _ (source_lines : List Text) where
  gap_is_checked :
      (i j : ℕ) → 1 ≤ i → i ≤ j → check_parsed_block (gap_block source_lines i j) ≡ ok tt
  unfolding check_parsed_block require_inclusive_line_range all children_of to_list gap_block
  gap_is_checked i j h h' =
      let first = le→leb 1 i h in
      let last = le→leb i j h' in
      elim (Bool-cases (is_blank (lines_text source_lines (i - 1) j))) [
        | inl e ↦ rw (e, first, last) refl
        | inr e ↦ rw (e, first, last) refl
      ]

  raw_gap_returns :
      (i j : ℕ) → 1 ≤ i → i ≤ j → raw_gap source_lines i j ≡ ok (gap_block source_lines i j)
  unfolding raw_gap
  raw_gap_returns i j h h' = rw (gap_is_checked i j h h') refl

  gap_to_returns :
      (i j : ℕ) → 1 ≤ i → ReturnsText (lines_text source_lines (i - 1) j) (gap_to source_lines i j)
  unfolding gap_to blocks_text gap_block
  gap_to_returns i j h = elim (Bool-cases (leb i j)) [
    | inl e ↦
        let gap = gap_block source_lines i j in
        (gap ∷ [], (rw (e, raw_gap_returns i j h (leb→le i j e)) refl, append-nil (block_text gap)))
    | inr e ↦ ([], (rw e refl, sym (lines_text_empty source_lines (i - 1) j (ground arith))))
  ]

  -- a block that the section keeps, behind the lines before it
  kept_returns :
      (cursor line_end : ℕ) (b : ParsedBlock) (r : Result (List ParsedBlock))
      → 1 ≤ cursor
      → cursor ≤ first_line b
      → first_line b ≤ last_line b
      → last_line b ≤ line_end
      → block_text b ≡ lines_text source_lines (first_line b - 1) (last_line b)
      → ReturnsText (lines_text source_lines (last_line b) line_end) r
      → ReturnsText (lines_text source_lines (cursor - 1) line_end) (
          gap_to source_lines cursor (first_line b - 1) >>= λ gap.
          r >>= λ rest. ok (gap ++ b ∷ rest))
  unfolding blocks_text
  kept_returns cursor line_end b r low before inside within text (rest, (returns, rest_text)) =
      let (gap, (gap_returns, gap_text)) = gap_to_returns cursor (first_line b - 1) low in
      (
        gap ++ b ∷ rest,
        (
          rw (gap_returns, returns) refl,
          blocks_text-append gap (b ∷ rest)
              ∙ ap₂ (λ s t. s ++ t) gap_text
                  (ap₂ (λ s t. s ++ t) text rest_text
                    ∙ lines_text-append source_lines (first_line b - 1) (last_line b) line_end
                        (omega arith) within)
              ∙ lines_text-append source_lines (cursor - 1) (first_line b - 1) line_end
                  (omega arith) (omega arith),
        ),
      )

  fill_section_returns :
      (line_start line_end : ℕ) (bs : List ParsedBlock) (n m cursor : ℕ)
      → 1 ≤ line_start
      → Laid source_lines n (map span bs) m
      → line_start ≤ cursor
      → (cursor ≤ line_start) ⊎ (cursor ≤ n + 1)
      → ReturnsText
          (lines_text source_lines (cursor - 1) line_end)
          (fill_section source_lines line_start line_end cursor bs)
  unfolding fill_section span
  fill_section_returns line_start line_end [] n m cursor h laid after at =
      gap_to_returns cursor line_end (omega arith)
  fill_section_returns line_start line_end (b ∷ bs) n m cursor h laid after at =
      let (behind, (inside, (text, laid'))) = laid in
      let skipped =
        fill_section_returns line_start line_end bs (last_line b) m cursor h laid' after
          (elim at [ inl low ↦ inl low | inr low ↦ inr (omega (arith, low, behind, inside)) ]) in
      elim (Bool-cases (ltb (last_line b) line_start)) [
        | inl e ↦ rw e skipped
        | inr e ↦ elim (Bool-cases (ltb line_end (first_line b))) [
          | inl e' ↦ rw (e, e') (gap_to_returns cursor line_end (omega arith))
          | inr e' ↦
              elim (Bool-cases (ltb (first_line b) line_start || ltb line_end (last_line b))) [
                | inl e'' ↦ rw (e, e', e'') skipped
                | inr e'' ↦
                    let same : last_line b + 1 - 1 ≡ last_line b = omega arith in
                    let rest =
                      fill_section_returns line_start line_end bs (last_line b) m (last_line b + 1)
                        h laid' (ground arith) (inr (omega arith)) in
                    rw (e, e', e'')
                      (kept_returns cursor line_end b _ (omega arith)
                        (elim at [ inl low ↦ ground arith | inr low ↦ ground arith ]) inside
                        (ground arith) text (rw same at rest))
              ]
        ]
      ]

  -- a section's blocks are made, and their texts are its lines
  pub section_blocks_returns :
      (bs : List ParsedBlock) (m line_start line_end : ℕ)
      → Laid source_lines 0 (map span bs) m
      → 1 ≤ line_start
      → ReturnsText
          (lines_text source_lines (line_start - 1) line_end)
          (section_blocks bs source_lines line_start line_end)
  unfolding section_blocks blocks_text
  section_blocks_returns bs m line_start line_end laid h =
      elim (Bool-cases (ltb line_end line_start)) [
        | inl e ↦ (
          [],
          (rw e refl, sym (lines_text_empty source_lines (line_start - 1) line_end (ground arith))),
        )
        | inr e ↦ rw e (
            fill_section_returns line_start line_end bs 0 m line_start h laid (omega arith)
              (inl (omega arith)))
      ]
