-- ===== src/Indexing/Chunker/Atomic.antt =====
-- Children of a table, list or quote, infrastructure/source/chunker.py.
pub mod Fits
pub mod Pack
use omf_retrieval.Indexing.Chunker.Excerpt.{
  Excerpt, join_excerpts, physical_line_ends, trim_excerpt_whitespace_lines, with_warning,
}
use omf_retrieval.Indexing.Chunker.Groups.{token_group_boundaries}
use omf_retrieval.Indexing.Chunker.Normal.{found_or_raise, slice_tokens}
use omf_retrieval.Indexing.Chunker.Tokens.{Span, token_count, token_offsets}
use omf_retrieval.Indexing.Chunker.Units.{
  AtomicUnit, atomic_units, block_excerpt, trim_atomic_boundary_units,
}
use omf_retrieval.Indexing.Chunker.Window.{
  Chunker, WindowSearchBudget, bounded_window_end, window_search_budget,
}
use omf_retrieval.Indexing.Ports.{ChunkWarning, check_chunk_warning}
use omf_retrieval.Indexing.Structure.{ParsedBlock}
use omf_retrieval.Prelude.{
  List, Option, Result, [], false, if◌then◌else◌, leb, length, ltb, none, ok, out_of_fuel, raise,
  require, some, suc, true, value_error, zero, ℕ, ◌++◌, ◌+◌, ◌-◌, ◌>>=◌, ◌>>◌, ◌∷◌,
}
use omf_retrieval.Prelude.Text.{Text, codes, is_empty}

unfoldable pub warning_of : AtomicUnit → ChunkWarning
warning_of unit = record {
  block_kind = unit.block_kind;
  line_start = unit.warning_line_start;
  line_end = unit.warning_line_end;
  code = codes "oversized_atomic_unit_token_split";
}

unfoldable pub new_chunk_warning : AtomicUnit → Result ChunkWarning
unfolding check_chunk_warning warning_of
new_chunk_warning unit = do let warning = warning_of unit; check_chunk_warning warning; ok warning

-- what stays the same in the loop of `_split_oversized_atomic_unit`
pub record AtomicSplit : Type 0 where
  pub excerpt : Excerpt
  pub heading_prefix : Text
  pub offsets : List Span
  pub boundaries : List ℕ
  pub line_ends : List ℕ
  pub source_budget : ℕ
  pub warning : ChunkWarning

unfoldable pub atomic_window_end :
    Chunker → AtomicSplit → ℕ → WindowSearchBudget → Result (ℕ × WindowSearchBudget)
unfolding bounded_window_end found_or_raise
atomic_window_end chunker a cursor budget = do
  found ←
      bounded_window_end chunker.counter a.excerpt.raw_text a.offsets a.boundaries cursor
        (record {
          source_budget = a.source_budget;
          overlap_tokens = 0;
          allow_reduced_progress = true;
        })
        a.heading_prefix chunker.config.atomic_max_tokens budget
  found_or_raise found

-- `while cursor < len(offsets)`; each round passes a token at least
unfoldable pub split_unit_rounds :
    ℕ → Chunker → AtomicSplit → ℕ → WindowSearchBudget → Result (List Excerpt)
unfolding atomic_window_end slice_tokens with_warning
split_unit_rounds zero chunker a cursor budget = raise out_of_fuel
split_unit_rounds (suc fuel) chunker a cursor budget = elim (ltb cursor (length a.offsets)) [
  | false ↦ ok []
  | true ↦ do
    r ← atomic_window_end chunker a cursor budget
    piece ← slice_tokens a.excerpt a.offsets a.line_ends cursor r.0
    rest ← split_unit_rounds fuel chunker a r.0 r.1
    ok (with_warning piece a.warning ∷ rest)
]

unfoldable pub split_oversized_atomic_unit : Chunker → AtomicUnit → Text → Result (List Excerpt)
unfolding new_chunk_warning token_offsets token_group_boundaries physical_line_ends token_count
    window_search_budget split_unit_rounds
split_oversized_atomic_unit chunker unit heading_prefix = do
  warning ← new_chunk_warning unit
  offsets ← token_offsets chunker.counter unit.excerpt.raw_text
  prefix_tokens ← token_count chunker.counter heading_prefix
  let source_budget = chunker.config.atomic_max_tokens - prefix_tokens
  require (ltb 0 source_budget) value_error
  split_unit_rounds (length offsets + 1) chunker
      (record {
        excerpt = unit.excerpt;
        heading_prefix = heading_prefix;
        offsets = offsets;
        boundaries = token_group_boundaries offsets;
        line_ends = physical_line_ends unit.excerpt.raw_text;
        source_budget = source_budget;
        warning = warning;
      })
      0
      (window_search_budget unit.excerpt.raw_text heading_prefix (length offsets) source_budget
        chunker.config.overlap_tokens)

abbrev pub pending_list : Option Excerpt → List Excerpt
pending_list none = []
pending_list (some x) = x ∷ []

-- a unit that fits, after what is pending
unfoldable pub add_unit :
    Chunker → Text → Option Excerpt → Excerpt → Result (List Excerpt × Excerpt)
unfolding join_excerpts token_count
add_unit chunker heading_prefix none x = ok ([], x)
add_unit chunker heading_prefix (some pending) x = do
  let candidate = join_excerpts pending x
  count ← token_count chunker.counter (heading_prefix ++ candidate.raw_text)
  ok (if leb count chunker.config.atomic_max_tokens then ([], candidate) else (pending ∷ [], x))

-- one unit: the chunks that are done, and what is pending then
unfoldable pub pack_unit :
    Chunker → Text → Option Excerpt → AtomicUnit → Result (List Excerpt × Option Excerpt)
unfolding token_count split_oversized_atomic_unit add_unit
pack_unit chunker heading_prefix pending unit = do
  count ← token_count chunker.counter (heading_prefix ++ unit.excerpt.raw_text)
  if ltb chunker.config.atomic_max_tokens count
      then (split_oversized_atomic_unit chunker unit heading_prefix >>= λ pieces.
          ok (pending_list pending ++ pieces, none))
      else (add_unit chunker heading_prefix pending unit.excerpt >>= λ r. ok (r.0, some r.1))

-- the loop over the units
unfoldable pub pack_units :
    Chunker → Text → List Excerpt → Option Excerpt → List AtomicUnit → Result (List Excerpt)
unfolding pack_unit
pack_units chunker heading_prefix chunks pending [] = ok (chunks ++ pending_list pending)
pack_units chunker heading_prefix chunks pending (unit ∷ units) = do
  r ← pack_unit chunker heading_prefix pending unit
  pack_units chunker heading_prefix (chunks ++ r.0) r.1 units

unfoldable pub split_units : Chunker → ParsedBlock → Text → Option ℕ → Result (List Excerpt)
unfolding atomic_units trim_atomic_boundary_units pack_units
split_units chunker b heading_prefix source_start = do
  units ← atomic_units b source_start
  trimmed ← trim_atomic_boundary_units units
  pack_units chunker heading_prefix [] none trimmed

unfoldable pub split_whole_block :
    Chunker → ParsedBlock → Excerpt → Text → Option ℕ → Result (List Excerpt)
unfolding token_count split_units
split_whole_block chunker b whole heading_prefix source_start = do
  count ← token_count chunker.counter (heading_prefix ++ whole.raw_text)
  if leb count chunker.config.atomic_max_tokens
      then ok (whole ∷ [])
      else split_units chunker b heading_prefix source_start

unfoldable pub split_atomic_block : Chunker → ParsedBlock → Text → Option ℕ → Result (List Excerpt)
unfolding block_excerpt trim_excerpt_whitespace_lines split_whole_block
split_atomic_block chunker b heading_prefix source_start = do
  whole ← trim_excerpt_whitespace_lines (block_excerpt b source_start) true true
  if is_empty whole.raw_text
      then ok []
      else split_whole_block chunker b whole heading_prefix source_start
