-- ===== src/Indexing/Chunker/Context.antt =====
-- The context around a matched child, `ParentContextBuilder` of infrastructure/source/chunker.py: its
-- search budget, and the windows of blocks that grow from the blocks of the match.
pub mod Parts
pub mod Oversized
pub mod Select
pub mod Build
pub mod Grow
pub mod Halting
pub mod Chosen
pub mod Widest
pub mod Meet
pub mod Seeds
pub mod Cover
pub mod Place
pub mod Inside
pub mod Reparsed
pub mod Bounds
pub mod Fills
pub mod Root
pub mod Whole
use Prim.Native.Nat.{max}
use omf_retrieval.Prelude.{
  Bool, List, Option, Result, [], contains, false, if◌then◌else◌, leb, length, ltb, nat_eq, none,
  not, ok, out_of_fuel, raise, some, suc, true, zero, ℕ, ◌&&◌, ◌*◌, ◌++◌, ◌+◌, ◌-◌, ◌/◌, ◌>>=◌,
  ◌>>◌, ◌∷◌,
}
use omf_retrieval.Prelude.Slices.{bisect_right}

pub record ContextSearchBudget : Type 0 where
  pub calls_left : ℕ
  pub input_chars_left : ℕ

-- `consume`: `none` where it returns `False`, which leaves the budget as it is
unfoldable pub spend : ContextSearchBudget → ℕ → Option ContextSearchBudget
spend b input_chars =
    if ltb 0 b.calls_left && leb input_chars b.input_chars_left
    then some (record {
      calls_left = b.calls_left - 1;
      input_chars_left = b.input_chars_left - input_chars;
    })
    else none

-- `_CONTEXT_BASE_PROBES`, `_CONTEXT_PROBES_PER_SOURCE_WINDOW`, `_CONTEXT_SEARCH_INPUT_MULTIPLIER`
abbrev pub context_base_probes : ℕ
context_base_probes = 16

-- the limit is positive, as the check of a configuration sees to
unfoldable pub context_search_budget : ℕ → ℕ → ContextSearchBudget
context_search_budget source_length limit =
    let source_windows = max 1 ((source_length + limit - 1) / limit) in
    record {
      calls_left = context_base_probes + 4 * source_windows;
      input_chars_left = 32 * (source_length + limit);
    }

pub data Side : Type 0 where
  left_side right_side : Side

-- the first and the last block of the match, and the number of blocks
pub record Seed : Type 0 where
  pub first : ℕ
  pub last : ℕ
  pub count : ℕ

-- a window of blocks, by its first and its last one
abbrev pub Window : Type 0
Window = ℕ × ℕ

-- `sorted(candidates)`: the sides on which there is a block, the one that has grown less first, and
-- the left one where both have grown alike
unfoldable pub sorted_sides : Seed → Window → List Side
sorted_sides seed (left, right) =
    if ltb 0 left
    then (if ltb (right + 1) seed.count
        then (if leb (seed.first - left) (right - seed.last)
            then left_side ∷ right_side ∷ []
            else right_side ∷ left_side ∷ [])
        else left_side ∷ [])
    else (if ltb (right + 1) seed.count then right_side ∷ [] else [])

unfoldable pub grown : Side → Window → Window
grown left_side (left, right) = (left - 1, right)
grown right_side (left, right) = (left, right + 1)

-- the windows from a window on, as long as there is a block on a side; the first side is the least
-- of the candidates
unfoldable pub windows_from : ℕ → Seed → Window → Result (List Window)
windows_from zero seed w = raise out_of_fuel
windows_from (suc fuel) seed w = elim (sorted_sides seed w) [
  | [] ↦ ok (w ∷ [])
  | side ∷ sides ↦ do rest ← windows_from fuel seed (grown side w); ok (w ∷ rest)
]

-- each window has a block more than the last one
unfoldable pub block_expansion_windows : Seed → Result (List Window)
block_expansion_windows seed = windows_from (seed.count + 1) seed (seed.first, seed.last)

unfoldable pub can_exhaustively_expand_blocks : List Window → ℕ → ContextSearchBudget → Bool
can_exhaustively_expand_blocks expansion_windows source_length search_budget =
    let candidate_count = length expansion_windows - 1 in
    leb (2 * candidate_count) search_budget.calls_left
    && leb (2 * candidate_count * source_length) search_budget.input_chars_left

-- `add` of `_block_context_probe_indices`
unfoldable pub add_index : ℕ → ℕ → List ℕ → List ℕ
add_index last candidate indices =
    if leb candidate last
      && not (contains indices candidate)
      && ltb (length indices) context_base_probes
    then indices ++ candidate ∷ []
    else indices

-- `add(center - distance)`, where a negative index is not added
unfoldable pub add_index_below : ℕ → ℕ → ℕ → List ℕ → List ℕ
add_index_below last center distance indices =
    if leb distance center then add_index last (center - distance) indices else indices

-- the indices at growing distances; the distance doubles, so `last + 1` rounds are enough
unfoldable pub widen_indices : ℕ → ℕ → ℕ → ℕ → List ℕ → Result (List ℕ)
widen_indices zero last estimated distance indices = raise out_of_fuel
widen_indices (suc fuel) last estimated distance indices =
    elim (ltb (length indices) (context_base_probes - 3) && leb distance last) [
      | true ↦
          widen_indices fuel last estimated (distance * 2) (
            add_index last (estimated + distance) (add_index_below last estimated distance indices))
      | false ↦ ok indices
    ]

unfoldable pub block_context_probe_indices : List ℕ → ℕ → Result (List ℕ)
block_context_probe_indices source_token_counts token_limit = do
  let last = length source_token_counts - 1
  let estimated = bisect_right source_token_counts token_limit - 1
  indices ← widen_indices (last + 1) last estimated 1 (add_index last estimated [])
  ok (add_index last 0 (add_index_below last last 1 (add_index last last indices)))
