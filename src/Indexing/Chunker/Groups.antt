-- ===== src/Indexing/Chunker/Groups.antt =====
-- Groups of tokens whose spans overlap, infrastructure/source/chunker.py: a child is cut between
-- groups only.
pub mod Laws
use Prim.Native.Nat.{max}
use omf_retrieval.Indexing.Chunker.Tokens.{Span}
use omf_retrieval.Prelude.{
  List, Result, [], false, get_elem?, if◌then◌else◌, index_error, leb, length, nat_beq, none, ok,
  raise, some, true, ℕ, ◌+◌, ◌-◌, ◌∷◌,
}
use omf_retrieval.Prelude.Slices.{bisect_left, bisect_right}

-- `_token_boundary`: the character where a token begins
unfoldable pub token_boundary : List Span → ℕ → ℕ → Result ℕ
token_boundary offsets index text_length =
    if nat_beq index 0
    then ok 0
    else if nat_beq index (length offsets)
    then ok text_length
    else elim (get_elem? offsets index) [ none ↦ raise index_error | some span ↦ ok span.0 ]

-- the loop over the offsets after the first: the group that is being read, and the index
unfoldable pub offset_groups_from : ℕ → ℕ → ℕ → ℕ → List Span → List (ℕ × ℕ × ℕ)
offset_groups_from group_start group_end group_token_start index [] =
    (group_start, group_end, index - group_token_start) ∷ []
offset_groups_from group_start group_end group_token_start index ((i, j) ∷ spans) =
    elim (leb group_end i) [
      | true ↦
          (group_start, group_end, index - group_token_start)
          ∷ offset_groups_from i j index (index + 1) spans
      | false ↦ offset_groups_from group_start (max group_end j) group_token_start (index + 1) spans
    ]

unfoldable pub token_offset_groups : List Span → List (ℕ × ℕ × ℕ)
unfolding offset_groups_from
token_offset_groups [] = []
token_offset_groups ((i, j) ∷ spans) = offset_groups_from i j 0 1 spans

unfoldable pub boundaries_from : ℕ → List (ℕ × ℕ × ℕ) → List ℕ
boundaries_from last_boundary [] = last_boundary ∷ []
boundaries_from last_boundary (g ∷ groups) =
    last_boundary ∷ boundaries_from (last_boundary + g.2) groups

unfoldable pub token_group_boundaries : List Span → List ℕ
unfolding boundaries_from token_offset_groups
token_group_boundaries offsets = boundaries_from 0 (token_offset_groups offsets)

-- `l[i]`
unfoldable pub element : List ℕ → ℕ → Result ℕ
element l i = elim (get_elem? l i) [ none ↦ raise index_error | some x ↦ ok x ]

-- `boundaries[bisect_right(boundaries, index) - 1]`; -1 is the last place
unfoldable pub floor_token_group_boundary : List ℕ → ℕ → Result ℕ
unfolding bisect_right element
floor_token_group_boundary boundaries index =
    let count = bisect_right boundaries index in
    element boundaries ((if nat_beq count 0 then length boundaries else count) - 1)

unfoldable pub ceil_token_group_boundary : List ℕ → ℕ → Result ℕ
unfolding bisect_left element
ceil_token_group_boundary boundaries index = element boundaries (bisect_left boundaries index)
