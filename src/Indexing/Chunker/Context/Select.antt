-- ===== src/Indexing/Chunker/Context/Select.antt =====
-- The blocks around a match, `_select_blocks` and `_select_blocks_bounded` of
-- infrastructure/source/chunker.py.
use mathlib.Core.Option
use omf_retrieval.Indexing.Chunker.Context.{
  ContextSearchBudget, Seed, Side, Window, block_context_probe_indices, block_expansion_windows,
  can_exhaustively_expand_blocks, context_search_budget, grown, sorted_sides, spend,
}
use omf_retrieval.Indexing.Chunker.Context.Oversized.{oversized_block_excerpt, span_at}
use omf_retrieval.Indexing.Chunker.Context.Parts.{
  block_at, block_window_source_token_counts, seed_indices, unique_occurrence, window_excerpt,
}
use omf_retrieval.Indexing.Chunker.Excerpt.{Excerpt, total_length}
use omf_retrieval.Indexing.Chunker.Tokens.{TokenCounter, token_count, token_offsets}
use omf_retrieval.Indexing.Markdown.Blocks.{lines_text}
use omf_retrieval.Indexing.Ports.Lines.{joined}
use omf_retrieval.Indexing.Structure.{ParsedBlock, first_line}
use omf_retrieval.Prelude.{
  List, Option, Result, [], false, if◌then◌else◌, leb, length, list_eq, ltb, nat_beq, nat_eq, none,
  ok, out_of_fuel, raise, require, some, suc, take, true, value_error, zero, ℕ, ◌&&◌, ◌+◌, ◌-◌,
  ◌==◌, ◌>>=◌, ◌>>◌, ◌∷◌,
}
use omf_retrieval.Prelude.Slices.{slice}
use omf_retrieval.Prelude.Text.{Text}

-- what stays the same while blocks are selected: the tokenizer, the limit, the lines of the body, the
-- line of the document on which it starts, its blocks and the blocks of the match
pub record Selection : Type 0 where
  pub counter : TokenCounter
  pub limit : ℕ
  pub source_lines : List Text
  pub body_line_start : ℕ
  pub blocks : List ParsedBlock
  pub seed : Seed

unfoldable pub excerpt_of : Selection → Window → Result Excerpt
excerpt_of s w = window_excerpt s.source_lines s.body_line_start s.blocks w

-- a window of blocks with its excerpt
abbrev pub Selected : Type 0
Selected = Window × Excerpt

-- how an attempt to grow ends: the budget is spent, no side fits, or a side is added
pub data Growth : Type 0 where
  spent stuck : Growth
  added : Selected → Option ContextSearchBudget → Growth

-- a search without a budget is not bounded
unfoldable pub spend_of : Option ContextSearchBudget → ℕ → Option (Option ContextSearchBudget)
spend_of none input_chars = some none
spend_of (some budget) input_chars = Option.map some (spend budget input_chars)

-- the loop over the sides
unfoldable pub grow_once :
    Selection → Window → Option ContextSearchBudget → List Side → Result Growth
grow_once s w budget [] = ok stuck
grow_once s w budget (side ∷ sides) = do
  candidate ← excerpt_of s (grown side w)
  elim (spend_of budget (length candidate.raw_text)) [
    | none ↦ ok spent
    | some budget' ↦ do
      count ← token_count s.counter candidate.raw_text
      elim (leb count s.limit) [
        | true ↦ ok (added (grown side w, candidate) budget')
        | false ↦ grow_once s w budget' sides
      ]
  ]

-- the loop until no block is added; each round adds one
unfoldable pub grow : ℕ → Selection → Selected → Option ContextSearchBudget → Result Excerpt
grow zero s best budget = raise out_of_fuel
grow (suc fuel) s best budget = do
  growth ← grow_once s best.0 budget (sorted_sides s.seed best.0)
  elim growth [
    | spent ↦ ok best.1
    | stuck ↦ ok best.1
    | added selected budget' ↦ grow fuel s selected budget'
  ]

-- the loop over the probed windows: the best, and the budget that is left
unfoldable pub probe_windows :
    Selection
    → List Window
    → Selected
    → ContextSearchBudget
    → List ℕ
    → Result (Selected × ContextSearchBudget)
probe_windows s windows best budget [] = ok (best, budget)
probe_windows s windows best budget (i ∷ indices) = do
  w ← span_at windows i
  candidate ← excerpt_of s w
  elim (spend budget (length candidate.raw_text)) [
    | none ↦ ok (best, budget)
    | some budget' ↦ do
      count ← token_count s.counter candidate.raw_text
      probe_windows s windows
          (if leb count s.limit && ltb (length best.1.raw_text) (length candidate.raw_text)
            then (w, candidate)
            else best)
          budget' indices
  ]

-- a side that is left out leaves at most as many rounds as there are blocks
abbrev pub growth_fuel : Selection → ℕ
growth_fuel s = s.seed.count + 1

unfoldable pub select_blocks_bounded :
    Selection → List Window → Excerpt → ContextSearchBudget → Result Excerpt
select_blocks_bounded s expansion_windows seed_excerpt search_budget = do
  offsets ← token_offsets s.counter (joined s.source_lines)
  source_token_counts ←
      block_window_source_token_counts s.source_lines s.blocks expansion_windows offsets
  candidate_indices ← block_context_probe_indices source_token_counts s.limit
  best ←
      probe_windows s expansion_windows ((s.seed.first, s.seed.last), seed_excerpt) search_budget
        candidate_indices
  grow (growth_fuel s) s best.0 (some best.1)

-- where the blocks of the match are within the limit
unfoldable pub expand_seed : Selection → Excerpt → Result Excerpt
expand_seed s seed_excerpt = do
  expansion_windows ← block_expansion_windows s.seed
  let source_length = total_length s.source_lines
  let search_budget = context_search_budget source_length s.limit
  if can_exhaustively_expand_blocks expansion_windows source_length search_budget
      then grow (growth_fuel s) s ((s.seed.first, s.seed.last), seed_excerpt) none
      else select_blocks_bounded s expansion_windows seed_excerpt search_budget

-- a match by its lines in the body, its text, and its place in the body, if that is known
pub record Match : Type 0 where
  pub line_start : ℕ
  pub line_end : ℕ
  pub raw_text : Text
  pub source_start : Option ℕ

-- the place of the match in its block; the block starts at or before the lines of the match
unfoldable pub place_in_block : List Text → Match → Excerpt → ℕ → Result ℕ
place_in_block source_lines m x block_start = elim m.source_start [
  | none ↦
      elim (unique_occurrence (lines_text source_lines (m.line_start - 1) m.line_end) m.raw_text) [
        | none ↦ raise value_error
        | some occurrence ↦
            ok (total_length (take (m.line_start - 1) source_lines) + occurrence - block_start)
      ]
  | some source_start ↦
      require
        (leb block_start source_start
          && leb (source_start - block_start + length m.raw_text) (length x.raw_text)
          && slice x.raw_text (source_start - block_start)
              (source_start - block_start + length m.raw_text)
            == m.raw_text)
        value_error
      >> ok (source_start - block_start)
]

-- where the blocks of the match are over the limit
unfoldable pub select_in_block : Selection → Match → ParsedBlock → Excerpt → Result Excerpt
select_in_block s m first x = do
  require (nat_beq s.seed.first s.seed.last) value_error
  let block_start = total_length (take (first_line first - 1) s.source_lines)
  matched_start ← place_in_block s.source_lines m x block_start
  oversized_block_excerpt s.counter s.limit x matched_start (matched_start + length m.raw_text)

abbrev pub last_index : ℕ → List ℕ → ℕ
last_index i [] = i
last_index i (j ∷ l) = last_index j l

unfoldable pub seed_of : List ParsedBlock → Match → Result Seed
seed_of blocks m = elim (seed_indices m.line_start m.line_end 0 blocks) [
  | [] ↦ raise value_error
  | i ∷ l ↦ ok (record { first = i; last = last_index i l; count = length blocks })
]

unfoldable pub select_blocks :
    TokenCounter → ℕ → List ParsedBlock → List Text → ℕ → Match → Result Excerpt
select_blocks counter limit blocks source_lines body_line_start m = do
  seed ← seed_of blocks m
  let s : Selection = record {
    counter = counter;
    limit = limit;
    source_lines = source_lines;
    body_line_start = body_line_start;
    blocks = blocks;
    seed = seed;
  }
  first ← block_at blocks seed.first
  x ← excerpt_of s (seed.first, seed.last)
  seed_token_count ← token_count counter x.raw_text
  if ltb limit seed_token_count then select_in_block s m first x else expand_seed s x
