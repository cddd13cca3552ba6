-- ===== src/Indexing/Chunker/Source/Drafts.antt =====
-- Every draft of a section is an exact slice of its body.
use mathlib.Core.List.{append_assoc}
use omf_retrieval.Indexing.Chunker.Excerpt.{Excerpt}
use omf_retrieval.Indexing.Chunker.Limits.{IsLimits}
use omf_retrieval.Indexing.Chunker.Source.{IsSource}
use omf_retrieval.Indexing.Chunker.Source.Section.{
  PackingAt, blocks_text, flush_normal-At, pack_atomic-At, pack_blank-At, pack_normal-At, settled,
}
use omf_retrieval.Indexing.Chunker.Source.Units.{IsAscending, block_excerpt-At}
use omf_retrieval.Indexing.Chunker.Split.{
  Packing, drafts_from, first_line_of, flush_normal, heading_prefix_of, is_atomic_kind,
  last_line_of, no_packing, pack_all, pack_blank, pack_block, section_excerpts, split_blocks,
  split_drafts_with_excerpts, split_nonblank, whole_section,
}
use omf_retrieval.Indexing.Chunker.Split.Drafts.{
  drafts_from-Ensures, first_line_of-Halts, last_line_of-Halts, section_excerpts-Ensures,
}
use omf_retrieval.Indexing.Chunker.Tokens.{token_count}
use omf_retrieval.Indexing.Chunker.Tokens.Laws.{token_count-Halts}
use omf_retrieval.Indexing.Chunker.Units.{block_excerpt}
use omf_retrieval.Indexing.Chunker.Window.{Chunker}
use omf_retrieval.Indexing.Structure.{ParsedBlock, ParsedSection, block_text, kind_of}
use omf_retrieval.Prelude.{
  All, List, [], ap, arith, false, if◌then◌else◌, leb, length, length-append, not, refl, some, sym,
  true, value_error, ◌++◌, ◌+◌, ◌∙◌, ◌∷◌, ◌≡◌, ◌≤◌,
}
use omf_retrieval.Prelude.Ensures.{
  Ensures, Ensures-at, Ensures-bind, Ensures-branch, Ensures-if, Ensures-require, returned,
}
use omf_retrieval.Prelude.Slices.{slice}
use omf_retrieval.Prelude.Slices.Laws.{slice_middle, slice_whole}
use omf_retrieval.Prelude.Text.{Text, is_blank, is_empty}

-- the blocks of a list, tables, lists and quotes with their parts in line order
abbrev pub AreAscending : List ParsedBlock → Type 0
AreAscending = All (λ b. is_atomic_kind (kind_of b) ≡ true → IsAscending b)

module _ (chunker : Chunker) (body heading_prefix : Text) (l : IsLimits chunker.config) where
  pack_block-At :
      (p : Packing) (b : ParsedBlock)
      → PackingAt chunker body heading_prefix l p
      → (is_atomic_kind (kind_of b) ≡ true → IsAscending b)
      → p.source_cursor + length (block_text b) ≤ length body
      → block_text b ≡ slice body p.source_cursor (p.source_cursor + length (block_text b))
      → Ensures
          (λ q.
            PackingAt chunker body heading_prefix l q
            × (q.source_cursor ≡ p.source_cursor + length (block_text b)))
          (pack_block chunker heading_prefix p b)
  unfolding pack_block
  pack_block-At p b w asc h t =
      let a = p.source_cursor in
      let block = block_excerpt b (some a) in
      let p' = record p { source_cursor = a + length (block_text b) } in
      let at = block_excerpt-At body a b h t in
      Ensures-branch (is_blank (block_text b)) _ _
        (returned (pack_blank p' block) (
          pack_blank-At chunker body heading_prefix l p block (a + length (block_text b)) w at,
          pack_blank-cursor p' block,
        ))
        (Ensures-if (is_atomic_kind (kind_of b)) _ _
          (λ atomic.
            pack_atomic-At chunker body heading_prefix l p' b a w.start_at w.middle_at w.chunks_at
              w.normal_at (asc atomic) h t)
          (λ normal.
            pack_normal-At chunker body heading_prefix l p' block a w.start_at w.middle_at
              w.chunks_at w.normal_at w.separators_at at))
    where
      pack_blank-cursor :
          (p : Packing) (block : Excerpt) → (pack_blank p block).source_cursor ≡ p.source_cursor
      pack_blank-cursor p block =
          elim (is_empty p.normal_blocks)
            as (λ c.
              let q =
                if c then p else record p { separator_blocks = p.separator_blocks ++ block ∷ [] } in
              q.source_cursor ≡ p.source_cursor) [ true ↦ refl | false ↦ refl ]

  pack_all-At :
      (before : Text) (p : Packing) (bs : List ParsedBlock)
      → PackingAt chunker body heading_prefix l p
      → AreAscending bs
      → before ++ blocks_text bs ≡ body
      → p.source_cursor ≡ length before
      → Ensures (PackingAt chunker body heading_prefix l) (pack_all chunker heading_prefix p bs)
  unfolding pack_all blocks_text
  pack_all-At before p [] w asc e c = returned p w
  pack_all-At before p (b ∷ bs) w asc e c =
      let size : length before + length (block_text b) ≤ length body = rw (← e) (
        omega (
          arith,
          length-append before (block_text b ++ blocks_text bs),
          length-append (block_text b) (blocks_text bs),
        )) in
      let text : block_text b ≡ slice body (length before) (length before + length (block_text b)) =
        rw (← e) (sym (slice_middle before (block_text b) (blocks_text bs))) in
      Ensures-bind (pack_block chunker heading_prefix p b) _
        (pack_block-At p b w asc.0 (rw c size) (rw c text))
        λ q u (w', same).
          pack_all-At (before ++ block_text b) q bs w' asc.1
            (append_assoc before (block_text b) (blocks_text bs) ∙ e)
            (same
              ∙ ap (λ n. n + length (block_text b)) c
              ∙ sym (length-append before (block_text b)))

  split_blocks-IsSource :
      (blocks : List ParsedBlock)
      → AreAscending blocks
      → blocks_text blocks ≡ body
      → Ensures (All (IsSource body)) (split_blocks chunker blocks heading_prefix)
  unfolding split_blocks
  split_blocks-IsSource blocks asc e =
      let fresh = settled chunker body heading_prefix l no_packing 0 tt refl refl in
      Ensures-bind (pack_all chunker heading_prefix no_packing blocks) _
        (pack_all-At [] no_packing blocks fresh asc e refl)
        λ p q w.
          Ensures-bind (flush_normal chunker heading_prefix p) _
            (flush_normal-At chunker body heading_prefix l p w.start_at w.middle_at w.chunks_at
              w.normal_at)
            λ p' q' done. returned p'.chunks done.0

whole_section-IsSource : (s : ParsedSection) → Ensures (IsSource s.body) (whole_section s)
unfolding whole_section
whole_section-IsSource s =
    Ensures-bind (first_line_of s.blocks) _ (first_line_of-Halts s.blocks) λ i q h.
      Ensures-bind (last_line_of s.blocks) _ (last_line_of-Halts s.blocks) λ j q' h'. returned _ (
        0,
        length s.body,
        record {
          starts = refl;
          ends = refl;
          ordered = omega arith;
          within = omega arith;
          text = sym (slice_whole s.body);
        },
      )

section_excerpts-IsSource :
    (chunker : Chunker) (s : ParsedSection)
    → IsLimits chunker.config
    → blocks_text s.blocks ≡ s.body
    → AreAscending s.blocks
    → Ensures (All (IsSource s.body)) (section_excerpts chunker s)
unfolding section_excerpts
section_excerpts-IsSource chunker s l e asc =
    let heading_prefix = heading_prefix_of s.heading_path in
    let text = heading_prefix ++ s.body in
    Ensures-bind (whole_section s) _ (whole_section-IsSource s) λ whole q source.
      Ensures-bind (token_count chunker.counter text) _ (token_count-Halts chunker.counter text)
        λ count q' u.
          Ensures-branch (leb count chunker.config.soft_max_tokens) _ _
            (returned (whole ∷ []) (source, tt))
            (split_blocks-IsSource chunker s.body heading_prefix l s.blocks asc e)

-- Every excerpt that splitting a section returns, and so the raw text of every draft, is a slice of
-- the section's body between two characters that the excerpt names. The blocks of the section are
-- its body in pieces, and the parts of a table, list or quote are in line order.
pub split_drafts_with_excerpts-IsSource :
    (chunker : Chunker) (s : ParsedSection) (parser_version : Text)
    → IsLimits chunker.config
    → blocks_text s.blocks ≡ s.body
    → AreAscending s.blocks
    → Ensures (λ r. All (IsSource s.body) r.1) (split_drafts_with_excerpts chunker s parser_version)
unfolding split_drafts_with_excerpts split_nonblank
split_drafts_with_excerpts-IsSource chunker s parser_version l e asc =
    let heading_prefix = heading_prefix_of s.heading_path in
    Ensures-require (not (is_blank parser_version)) value_error _ tt λ named.
      Ensures-branch (is_blank s.body) _ _ (returned ([], []) tt) (
        Ensures-bind (section_excerpts chunker s) _ (section_excerpts-IsSource chunker s l e asc)
          λ xs q source.
            Ensures-bind (drafts_from chunker 0 heading_prefix s.heading_path parser_version xs) _
              (drafts_from-Ensures chunker 0 heading_prefix s.heading_path parser_version xs
                (Ensures-at (section_excerpts-Ensures chunker s l) q))
              λ ds q' d. returned (ds, xs) source)
