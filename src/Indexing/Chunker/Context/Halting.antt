-- ===== src/Indexing/Chunker/Context/Halting.antt =====
-- The excerpts of windows of blocks and the weights of windows, infrastructure/source/chunker.py, come
-- to an end.
use omf_retrieval.Indexing.Chunker.Context.{Window}
use omf_retrieval.Indexing.Chunker.Context.Parts.{
  block_at, block_window_source_token_counts, window_excerpt, window_weight, window_weights,
}
use omf_retrieval.Indexing.Chunker.Context.Select.{Selection, excerpt_of}
use omf_retrieval.Indexing.Chunker.Excerpt.{line_ends_from}
use omf_retrieval.Indexing.Chunker.Groups.{boundaries_from, element, token_offset_groups}
use omf_retrieval.Indexing.Chunker.Groups.Laws.{element-Ensures}
use omf_retrieval.Indexing.Chunker.Tokens.{Span}
use omf_retrieval.Indexing.Structure.{ParsedBlock, first_line, last_line}
use omf_retrieval.Prelude.{
  List, Option-cases, [], get_elem?, index_error, inl, inr, ltb, ℕ, ◌-◌, ◌∷◌,
}
use omf_retrieval.Prelude.Ensures.{
  Ensures-bind, Ensures-branch, Ensures-imp, Halts, refused, returned,
}
use omf_retrieval.Prelude.Text.{Text}

element-Halts : (l : List ℕ) (i : ℕ) → Halts (element l i)
element-Halts l i = Ensures-imp (λ x h. tt) (element-Ensures l i)

block_at-Halts : (blocks : List ParsedBlock) (i : ℕ) → Halts (block_at blocks i)
unfolding block_at
block_at-Halts blocks i = elim (Option-cases (get_elem? blocks i)) [
  | inl e ↦ rw (e, block_at) (refused index_error tt)
  | inr (b, e) ↦ rw (e, block_at) (returned b tt)
]

pub excerpt_of-Halts : (s : Selection) (w : Window) → Halts (excerpt_of s w)
unfolding excerpt_of window_excerpt
excerpt_of-Halts s (left, right) =
    Ensures-bind (block_at s.blocks left) _ (block_at-Halts s.blocks left) λ first q h.
      Ensures-bind (block_at s.blocks right) _ (block_at-Halts s.blocks right)
        λ last q' h'. returned _ tt

window_weight-Halts :
    (ends : List ℕ) (groups : List (ℕ × ℕ × ℕ)) (first last : ParsedBlock)
    → Halts (window_weight ends groups first last)
unfolding window_weight
window_weight-Halts ends groups first last =
    Ensures-bind _ _
      (Ensures-branch (ltb 1 (first_line first)) _ _ (element-Halts ends (first_line first - 2))
        (returned 0 tt))
      λ char_start q h.
        Ensures-bind (element ends (last_line last - 1)) _ (element-Halts ends (last_line last - 1))
          λ char_end q' h'.
            Ensures-bind (element (boundaries_from 0 groups) _) _
              (element-Halts (boundaries_from 0 groups) _)
              λ below q2 h2.
                Ensures-bind (element (boundaries_from 0 groups) _) _
                  (element-Halts (boundaries_from 0 groups) _) λ before q3 h3. returned _ tt

window_weights-Halts :
    (ends : List ℕ) (groups : List (ℕ × ℕ × ℕ)) (blocks : List ParsedBlock) (windows : List Window)
    → Halts (window_weights ends groups blocks windows)
unfolding window_weights
window_weights-Halts ends groups blocks [] = returned [] tt
window_weights-Halts ends groups blocks ((left, right) ∷ windows) =
    Ensures-bind (block_at blocks left) _ (block_at-Halts blocks left) λ first q h.
      Ensures-bind (block_at blocks right) _ (block_at-Halts blocks right) λ last q' h'.
        Ensures-bind (window_weight ends groups first last) _
          (window_weight-Halts ends groups first last)
          λ weight q2 h2.
            Ensures-bind (window_weights ends groups blocks windows) _
              (window_weights-Halts ends groups blocks windows) λ rest q3 h3. returned _ tt

pub window_counts-Halts :
    (lines : List Text) (blocks : List ParsedBlock) (windows : List Window) (offsets : List Span)
    → Halts (block_window_source_token_counts lines blocks windows offsets)
unfolding block_window_source_token_counts
window_counts-Halts lines blocks windows offsets =
    window_weights-Halts (line_ends_from 0 lines) (token_offset_groups offsets) blocks windows
