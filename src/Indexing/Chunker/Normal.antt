-- ===== src/Indexing/Chunker/Normal.antt =====
-- Children of ordinary blocks, infrastructure/source/chunker.py: windows of tokens that overlap.
pub mod Fits
pub mod Pack
pub mod Blocks
use Prim.Native.Nat.{max, min}
use omf_retrieval.Indexing.Chunker.Excerpt.{
  Excerpt, join_excerpts, physical_line_ends, slice_excerpt, slice_excerpt_with_line_ends,
}
use omf_retrieval.Indexing.Chunker.Groups.{
  ceil_token_group_boundary, token_boundary, token_group_boundaries,
}
use omf_retrieval.Indexing.Chunker.Tokens.{Span, token_count, token_offsets}
use omf_retrieval.Indexing.Chunker.Window.{
  Chunker, Limits, WindowPlan, WindowSearchBudget, bounded_window_end, window_search_budget,
}
use omf_retrieval.Prelude.{
  Bool, List, Option, Result, [], if◌then◌else◌, is_some, leb, length, ltb, nat_beq, none, not, ok,
  out_of_fuel, raise, require, some, suc, true, value_error, zero, ℕ, ◌&&◌, ◌*◌, ◌++◌, ◌+◌, ◌-◌,
  ◌/◌, ◌>>=◌, ◌>>◌, ◌∷◌,
}
use omf_retrieval.Prelude.Text.{Text}

-- `target_budget >= max(1, 2 * overlap_tokens)`: the prefix leaves room for windows of the target
-- size. The budget is negative where the prefix is over the target, and fails the test like 0.
unfoldable pub has_target_window : Limits → ℕ → Bool
has_target_window limits prefix_tokens =
    leb (max 1 (2 * limits.overlap_tokens)) (limits.target_tokens - prefix_tokens)

unfoldable pub window_limit_of : Limits → ℕ → ℕ
unfolding has_target_window
window_limit_of limits prefix_tokens =
    if has_target_window limits prefix_tokens then limits.target_tokens else limits.soft_max_tokens

-- what stays the same in the loop of `_split_oversized_normal`
pub record NormalSplit : Type 0 where
  pub excerpt : Excerpt
  pub heading_prefix : Text
  pub offsets : List Span
  pub boundaries : List ℕ
  pub line_ends : List ℕ
  pub soft_budget : ℕ
  pub window_budget : ℕ
  pub window_limit : ℕ

-- the variables of the loop
pub record Progress : Type 0 where
  pub chunks : List Excerpt
  pub cursor : ℕ
  pub covered_end : ℕ
  pub search_budget : WindowSearchBudget

-- from one token to another; the second is the end of the text where it is the number of tokens
unfoldable pub slice_tokens : Excerpt → List Span → List ℕ → ℕ → ℕ → Result Excerpt
unfolding token_boundary slice_excerpt_with_line_ends
slice_tokens x offsets line_ends i j = do
  first ← token_boundary offsets i (length x.raw_text)
  last ← token_boundary offsets j (length x.raw_text)
  slice_excerpt_with_line_ends x first last line_ends

unfoldable pub rest_of_tokens : Excerpt → List Span → List ℕ → ℕ → Result Excerpt
unfolding token_boundary slice_excerpt_with_line_ends
rest_of_tokens x offsets line_ends i = do
  first ← token_boundary offsets i (length x.raw_text)
  slice_excerpt_with_line_ends x first (length x.raw_text) line_ends

-- the last piece, if all that is left fits
unfoldable pub last_piece : Chunker → NormalSplit → ℕ → Result (Option Excerpt)
unfolding rest_of_tokens token_count
last_piece chunker n cursor = do
  pending ← rest_of_tokens n.excerpt n.offsets n.line_ends cursor
  count ← token_count chunker.counter (n.heading_prefix ++ pending.raw_text)
  ok (if leb count chunker.config.soft_max_tokens then some pending else none)

unfoldable pub plan_of : Chunker → ℕ → Bool → WindowPlan
plan_of chunker source_budget allow = record {
  source_budget = source_budget;
  overlap_tokens = chunker.config.overlap_tokens;
  allow_reduced_progress = allow;
}

unfoldable pub window_end_at :
    Chunker
    → NormalSplit
    → ℕ
    → ℕ
    → ℕ
    → Bool
    → WindowSearchBudget
    → Result (Option ℕ × WindowSearchBudget)
unfolding plan_of bounded_window_end
window_end_at chunker n cursor source_budget token_limit allow budget =
    bounded_window_end chunker.counter n.excerpt.raw_text n.offsets n.boundaries cursor
      (plan_of chunker source_budget allow) n.heading_prefix token_limit budget

unfoldable pub found_or_raise : Option ℕ × WindowSearchBudget → Result (ℕ × WindowSearchBudget)
found_or_raise (none, budget) = raise value_error
found_or_raise (some window_end, budget) = ok (window_end, budget)

-- a window under the given limit, or else one under the soft limit
unfoldable pub window_end_of :
    Chunker → NormalSplit → ℕ → ℕ → ℕ → WindowSearchBudget → Result (ℕ × WindowSearchBudget)
unfolding window_end_at found_or_raise
window_end_of chunker n cursor source_budget token_limit budget = do
  let soft = chunker.config.soft_max_tokens
  first ← window_end_at chunker n cursor source_budget token_limit (nat_beq token_limit soft) budget
  found ←
      if not (is_some first.0) && ltb token_limit soft
      then window_end_at chunker n cursor n.soft_budget soft true first.1
      else ok first
  found_or_raise found

-- after a window is found: the tokens that it adds, and where the next one starts
unfoldable pub take_window :
    Chunker → NormalSplit → Progress → ℕ → WindowSearchBudget → Result Progress
unfolding slice_tokens ceil_token_group_boundary
take_window chunker n p window_end budget = do
  piece ← slice_tokens n.excerpt n.offsets n.line_ends p.cursor window_end
  let piece_tokens = window_end - p.cursor
  let effective_overlap = min chunker.config.overlap_tokens (piece_tokens / 2)
  cursor ← ceil_token_group_boundary n.boundaries (window_end - effective_overlap)
  ok (record {
    chunks = p.chunks ++ piece ∷ [];
    cursor = cursor;
    covered_end = window_end;
    search_budget = budget;
  })

unfoldable pub next_window : Chunker → NormalSplit → Progress → ℕ → ℕ → Result Progress
unfolding window_end_of take_window
next_window chunker n p source_budget token_limit = do
  r ← window_end_of chunker n p.cursor source_budget token_limit p.search_budget
  if leb r.0 p.covered_end
      then ok (record p { cursor = p.covered_end; search_budget = r.1 })
      else take_window chunker n p r.0 r.1

abbrev pub going_on : Result Progress → Result (Option Excerpt × Progress)
going_on r = r >>= λ p. ok (none, p)

-- after the last piece, if it fits
unfoldable pub ended :
    Chunker → NormalSplit → Progress → Option Excerpt → Result (Option Excerpt × Progress)
unfolding next_window
ended chunker n p (some pending) = ok (some pending, p)
ended chunker n p none =
    going_on (next_window chunker n p n.soft_budget chunker.config.soft_max_tokens)

-- one round: the last piece, or a step
unfoldable pub round : Chunker → NormalSplit → Progress → Result (Option Excerpt × Progress)
unfolding last_piece next_window ended
round chunker n p =
    if leb (length n.offsets - p.cursor) n.soft_budget
    then last_piece chunker n p.cursor >>= ended chunker n p
    else going_on (next_window chunker n p n.window_budget n.window_limit)

-- `while True`; the cursor grows, so one round for each token and one more are enough
unfoldable pub split_rounds : ℕ → Chunker → NormalSplit → Progress → Result (List Excerpt × Excerpt)
unfolding round
split_rounds zero chunker n p = raise out_of_fuel
split_rounds (suc fuel) chunker n p = do
  r ← round chunker n p
  elim r.0 [ some pending ↦ ok (r.1.chunks, pending) | none ↦ split_rounds fuel chunker n r.1 ]

unfoldable pub split_oversized_normal : Chunker → Excerpt → Text → Result (List Excerpt × Excerpt)
unfolding token_offsets token_group_boundaries physical_line_ends token_count has_target_window
    window_limit_of window_search_budget split_rounds
split_oversized_normal chunker excerpt heading_prefix = do
  offsets ← token_offsets chunker.counter excerpt.raw_text
  prefix_tokens ← token_count chunker.counter heading_prefix
  let soft_budget = chunker.config.soft_max_tokens - prefix_tokens
  require (ltb 0 soft_budget) value_error
  let window_budget =
      if has_target_window chunker.config prefix_tokens
      then chunker.config.target_tokens - prefix_tokens
      else soft_budget
  split_rounds (length offsets + 1) chunker
      (record {
        excerpt = excerpt;
        heading_prefix = heading_prefix;
        offsets = offsets;
        boundaries = token_group_boundaries offsets;
        line_ends = physical_line_ends excerpt.raw_text;
        soft_budget = soft_budget;
        window_budget = window_budget;
        window_limit = window_limit_of chunker.config prefix_tokens;
      })
      (record {
        chunks = [];
        cursor = 0;
        covered_end = 0;
        search_budget =
            window_search_budget excerpt.raw_text heading_prefix (length offsets) window_budget
              chunker.config.overlap_tokens;
      })

-- from the group at or after a token on
unfoldable pub suffix_from : Excerpt → List Span → ℕ → Result Excerpt
unfolding token_group_boundaries slice_excerpt ceil_token_group_boundary token_boundary
suffix_from x offsets index = do
  start_index ← ceil_token_group_boundary (token_group_boundaries offsets) index
  first ← token_boundary offsets start_index (length x.raw_text)
  slice_excerpt x first (length x.raw_text)

unfoldable pub overlap_suffix : Chunker → Excerpt → Result Excerpt
unfolding token_offsets slice_excerpt suffix_from
overlap_suffix chunker x = do
  offsets ← token_offsets chunker.counter x.raw_text
  let overlap_count = min chunker.config.overlap_tokens (length offsets / 2)
  if nat_beq overlap_count 0
      then slice_excerpt x (length x.raw_text) (length x.raw_text)
      else suffix_from x offsets (length offsets - overlap_count)

-- `pending` with the next block, or the next block after the overlap of `pending`, which is done
unfoldable pub add_block :
    Chunker → Text → ℕ → List Excerpt → Option Excerpt → Excerpt → Result (List Excerpt × Excerpt)
unfolding join_excerpts token_count overlap_suffix
add_block chunker heading_prefix limit chunks none block = ok (chunks, block)
add_block chunker heading_prefix limit chunks (some pending) block = do
  let candidate = join_excerpts pending block
  candidate_tokens ← token_count chunker.counter (heading_prefix ++ candidate.raw_text)
  if leb candidate_tokens limit
      then ok (chunks, candidate)
      else (overlap_suffix chunker pending >>= λ suffix.
          ok (chunks ++ pending ∷ [], join_excerpts suffix block))

-- a pending excerpt over the soft limit is split at once
unfoldable pub keep_within :
    Chunker → Text → List Excerpt → Excerpt → Result (List Excerpt × Excerpt)
unfolding token_count split_oversized_normal
keep_within chunker heading_prefix chunks pending = do
  count ← token_count chunker.counter (heading_prefix ++ pending.raw_text)
  if ltb chunker.config.soft_max_tokens count
      then (split_oversized_normal chunker pending heading_prefix >>= λ r. ok (chunks ++ r.0, r.1))
      else ok (chunks, pending)

-- the loop over the blocks
unfoldable pub pack_blocks :
    Chunker → Text → ℕ → List Excerpt → Option Excerpt → List Excerpt → Result (List Excerpt)
unfolding add_block keep_within
pack_blocks chunker heading_prefix limit chunks none [] = ok chunks
pack_blocks chunker heading_prefix limit chunks (some pending) [] = ok (chunks ++ pending ∷ [])
pack_blocks chunker heading_prefix limit chunks pending (block ∷ blocks) = do
  added ← add_block chunker heading_prefix limit chunks pending block
  within ← keep_within chunker heading_prefix added.0 added.1
  pack_blocks chunker heading_prefix limit within.0 (some within.1) blocks

-- more than one block
unfoldable pub split_several : Chunker → List Excerpt → Text → Result (List Excerpt)
unfolding token_count window_limit_of pack_blocks
split_several chunker blocks heading_prefix = do
  prefix_tokens ← token_count chunker.counter heading_prefix
  pack_blocks chunker heading_prefix (window_limit_of chunker.config prefix_tokens) [] none blocks

unfoldable pub split_normal_blocks : Chunker → List Excerpt → Text → Result (List Excerpt)
unfolding split_oversized_normal split_several
split_normal_blocks chunker (block ∷ []) heading_prefix = do
  r ← split_oversized_normal chunker block heading_prefix
  ok (r.0 ++ r.1 ∷ [])
split_normal_blocks chunker blocks heading_prefix = split_several chunker blocks heading_prefix
