-- ===== src/Indexing/Chunker/Units.antt =====
-- The rows, items or parts of a table, list or quote, infrastructure/source/chunker.py.
pub mod Preorder
use Prim.Native.Nat.{max, min}
use omf_retrieval.Indexing.Chunker.Excerpt.{
  Excerpt, shifted, total_length, trim_excerpt_whitespace_lines,
}
use omf_retrieval.Indexing.Ports.{split_physical_lines}
use omf_retrieval.Indexing.Structure.{
  Blocks, ParsedBlock, block_text, children_of, first_line, kind_of, last_line, next_block,
  no_blocks, parsed_block,
}
use omf_retrieval.Prelude.{
  Bool, List, Option, Result, [], false, if◌then◌else◌, keep, length, list_eq, nat_eq, ok,
  out_of_fuel, raise, suc, take, true, zero, ℕ, ◌++◌, ◌+◌, ◌-◌, ◌==◌, ◌>>=◌, ◌||◌, ◌∷◌,
}
use omf_retrieval.Prelude.Slices.{slice}
use omf_retrieval.Prelude.Text.{Text, codes, is_empty}

pub record AtomicUnit : Type 0 where
  pub excerpt : Excerpt
  pub block_kind : Text
  pub warning_line_start : ℕ
  pub warning_line_end : ℕ

-- the number of blocks in a tree
unfoldable mutual
  pub block_count : ParsedBlock → ℕ
  block_count (parsed_block kind raw_text line_start line_end children) =
      suc (count_blocks children)

  pub count_blocks : Blocks → ℕ
  count_blocks no_blocks = 0
  count_blocks (next_block b bs) = block_count b + count_blocks bs

-- the loop of `_descendants`; the head of `pending` is the top of the source's stack
unfoldable pub find_descendants :
    ℕ → Text → List ParsedBlock → List ParsedBlock → Result (List ParsedBlock)
unfolding children_of
find_descendants fuel kind matches [] = ok matches
find_descendants zero kind matches (b ∷ pending) = raise out_of_fuel
find_descendants (suc fuel) kind matches (b ∷ pending) =
    find_descendants fuel kind (if kind_of b == kind then matches ++ b ∷ [] else matches)
      (children_of b ++ pending)

-- the blocks of a kind below a block; each of them is taken from the stack once
unfoldable pub descendants : ParsedBlock → Text → Result (List ParsedBlock)
unfolding find_descendants children_of block_count
descendants b kind = find_descendants (block_count b) kind [] (children_of b)

unfoldable pub unit_boundaries : ParsedBlock → Result (List ParsedBlock)
unfolding descendants children_of keep
unit_boundaries b =
    if kind_of b == codes "table"
    then descendants b (codes "table_row")
    else if kind_of b == codes "bullet_list" || kind_of b == codes "ordered_list"
    then ok (keep (λ child. kind_of child == codes "list_item") (children_of b))
    else ok (children_of b)

-- Lines of a block, by their numbers in the document. They lie within the block, as the checks of
-- `ParsedBlock` see to.
unfoldable pub slice_excerpt_lines : ParsedBlock → ℕ → ℕ → Option ℕ → Excerpt
unfolding split_physical_lines total_length take slice
slice_excerpt_lines b line_start line_end source_start =
    let lines = split_physical_lines (block_text b) in
    let first = total_length (take (line_start - first_line b) lines) in
    let last = total_length (take (line_end + 1 - first_line b) lines) in
    record {
      raw_text = slice (block_text b) first last;
      line_start = line_start;
      line_end = line_end;
      warnings = [];
      line_numbers = [];
      source_start = shifted source_start first;
      source_end = shifted source_start last;
    }

abbrev pub unit_of : ParsedBlock → Option ℕ → ParsedBlock → ℕ → ℕ → AtomicUnit
unit_of b source_start boundary line_start line_end = record {
  excerpt = slice_excerpt_lines b line_start line_end source_start;
  block_kind = kind_of boundary;
  warning_line_start = first_line boundary;
  warning_line_end = last_line boundary;
}

-- a unit reaches to the line before the next boundary; `line_start` is the first line of this one
unfoldable pub units_from : ParsedBlock → Option ℕ → ℕ → List ParsedBlock → List AtomicUnit
unfolding slice_excerpt_lines
units_from b source_start line_start [] = []
units_from b source_start line_start (boundary ∷ []) =
    unit_of b source_start boundary line_start (last_line b) ∷ []
units_from b source_start line_start (boundary ∷ after ∷ boundaries) =
    unit_of b source_start boundary line_start (first_line after - 1)
    ∷ units_from b source_start (first_line after) (after ∷ boundaries)

unfoldable pub block_excerpt : ParsedBlock → Option ℕ → Excerpt
block_excerpt b source_start = record {
  raw_text = block_text b;
  line_start = first_line b;
  line_end = last_line b;
  warnings = [];
  line_numbers = [];
  source_start = source_start;
  source_end = shifted source_start (length (block_text b));
}

unfoldable pub whole_unit : ParsedBlock → Option ℕ → AtomicUnit
unfolding block_excerpt
whole_unit b source_start = record {
  excerpt = block_excerpt b source_start;
  block_kind = kind_of b;
  warning_line_start = first_line b;
  warning_line_end = last_line b;
}

unfoldable pub atomic_units : ParsedBlock → Option ℕ → Result (List AtomicUnit)
unfolding unit_boundaries units_from whole_unit
atomic_units b source_start = do
  boundaries ← unit_boundaries b
  ok (
      if is_empty boundaries
      then whole_unit b source_start ∷ []
      else units_from b source_start (first_line b) boundaries)

unfoldable pub trimmed_unit : AtomicUnit → Excerpt → AtomicUnit
trimmed_unit unit x = record {
  excerpt = x;
  block_kind = unit.block_kind;
  warning_line_start = max unit.warning_line_start x.line_start;
  warning_line_end = min unit.warning_line_end x.line_end;
}

-- the loop over the units; whether the next one is the first
unfoldable pub trim_units : Bool → List AtomicUnit → Result (List AtomicUnit)
unfolding trim_excerpt_whitespace_lines trimmed_unit
trim_units is_first [] = ok []
trim_units is_first (unit ∷ units) = do
  x ← trim_excerpt_whitespace_lines unit.excerpt is_first (is_empty units)
  rest ← trim_units false units
  ok (if is_empty x.raw_text then rest else trimmed_unit unit x ∷ rest)

unfoldable pub trim_atomic_boundary_units : List AtomicUnit → Result (List AtomicUnit)
unfolding trim_units
trim_atomic_boundary_units = trim_units true
