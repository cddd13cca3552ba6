-- ===== src/Indexing/Chunker/Context/Parts.antt =====
-- The parts of a section's text around a match, infrastructure/source/chunker.py.
use omf_retrieval.Indexing.Chunker.Context.{Window}
use omf_retrieval.Indexing.Chunker.Excerpt.{Excerpt, line_ends_from}
use omf_retrieval.Indexing.Chunker.Groups.{boundaries_from, element, token_offset_groups}
use omf_retrieval.Indexing.Chunker.Tokens.{Span}
use omf_retrieval.Indexing.Chunker.Units.Preorder.{below}
use omf_retrieval.Indexing.Markdown.Blocks.{lines_text}
use omf_retrieval.Indexing.Ports.{split_physical_lines}
use omf_retrieval.Indexing.Structure.{ParsedBlock, ParsedSection, block_text, first_line, last_line}
use omf_retrieval.Prelude.{
  Bool, List, Option, Result, [], drop, get_elem?, if◌then◌else◌, index_error, is_some, leb, length,
  list_eq, ltb, map, nat_beq, nat_eq, none, not, ok, raise, some, ℕ, ◌&&◌, ◌+◌, ◌-◌, ◌==◌, ◌>>=◌,
  ◌∷◌,
}
use omf_retrieval.Prelude.Infix.{find}
use omf_retrieval.Prelude.Slices.{bisect_left, bisect_right}
use omf_retrieval.Prelude.Text.{Text, is_empty}

-- `_relative_line_excerpt`
unfoldable pub relative_line_excerpt : List Text → ℕ → ℕ → ℕ → Excerpt
relative_line_excerpt source_lines body_line_start line_start line_end = record {
  raw_text = lines_text source_lines (line_start - 1) line_end;
  line_start = body_line_start + line_start - 1;
  line_end = body_line_start + line_end - 1;
  warnings = [];
  line_numbers = [];
  source_start = none;
  source_end = none;
}

-- `source.find(target, first + 1)` is told from -1 only, for a target that is not empty
unfoldable pub unique_occurrence : Text → Text → Option ℕ
unique_occurrence source target = elim (find source target) [
  | none ↦ none
  | some first ↦ if is_some (find (drop (first + 1) source) target) then none else some first
]

unfoldable pub block_at : List ParsedBlock → ℕ → Result ParsedBlock
block_at blocks i = elim (get_elem? blocks i) [ none ↦ raise index_error | some b ↦ ok b ]

-- the excerpt of a window of blocks
unfoldable pub window_excerpt : List Text → ℕ → List ParsedBlock → Window → Result Excerpt
window_excerpt source_lines body_line_start blocks (left, right) = do
  first ← block_at blocks left
  last ← block_at blocks right
  ok (relative_line_excerpt source_lines body_line_start (first_line first) (last_line last))

-- the indices of the blocks that share a line with the match
unfoldable pub seed_indices : ℕ → ℕ → ℕ → List ParsedBlock → List ℕ
seed_indices matched_line_start matched_line_end i [] = []
seed_indices matched_line_start matched_line_end i (b ∷ bs) =
    let rest = seed_indices matched_line_start matched_line_end (i + 1) bs in
    if leb (first_line b) matched_line_end && leb matched_line_start (last_line b)
    then i ∷ rest
    else rest

-- the loop over the blocks of `_valid_reparsed_root`
unfoldable pub blocks_meet : List Text → ℕ → List ParsedBlock → Bool
blocks_meet source_lines cursor [] = nat_beq cursor (length source_lines + 1)
blocks_meet source_lines cursor (b ∷ bs) =
    nat_beq (first_line b) cursor
    && leb (last_line b) (length source_lines)
    && block_text b == lines_text source_lines (first_line b - 1) (last_line b)
    && blocks_meet source_lines (last_line b + 1) bs

unfoldable pub valid_reparsed_root : ParsedSection → Text → Bool
valid_reparsed_root s source =
    let source_lines = split_physical_lines source in
    nat_beq s.ordinal 0
    && not (is_some s.parent_ordinal)
    && not (is_some s.heading)
    && is_empty s.heading_path
    && nat_beq s.line_start 1
    && nat_beq s.line_end (length source_lines)
    && not (is_empty s.blocks)
    && blocks_meet source_lines 1 s.blocks

-- the running weight of the groups before each window's first and behind its last one
unfoldable pub window_weight : List ℕ → List (ℕ × ℕ × ℕ) → ParsedBlock → ParsedBlock → Result ℕ
window_weight line_ends token_groups first last = do
  char_start ← if ltb 1 (first_line first) then element line_ends (first_line first - 2) else ok 0
  char_end ← element line_ends (last_line last - 1)
  let cumulative_weights = boundaries_from 0 token_groups
  below ←
      element cumulative_weights (bisect_left (map (λ (g : ℕ × ℕ × ℕ). g.0) token_groups) char_end)
  before ←
      element cumulative_weights
        (bisect_right (map (λ (g : ℕ × ℕ × ℕ). g.1) token_groups) char_start)
  ok (below - before)

unfoldable pub window_weights :
    List ℕ → List (ℕ × ℕ × ℕ) → List ParsedBlock → List Window → Result (List ℕ)
window_weights line_ends token_groups blocks [] = ok []
window_weights line_ends token_groups blocks ((left, right) ∷ windows) = do
  first ← block_at blocks left
  last ← block_at blocks right
  weight ← window_weight line_ends token_groups first last
  rest ← window_weights line_ends token_groups blocks windows
  ok (weight ∷ rest)

unfoldable pub block_window_source_token_counts :
    List Text → List ParsedBlock → List Window → List Span → Result (List ℕ)
block_window_source_token_counts source_lines blocks expansion_windows source_offsets =
    window_weights (line_ends_from 0 source_lines) (token_offset_groups source_offsets) blocks
      expansion_windows
