-- ===== src/Indexing/Chunker/Context/Oversized.antt =====
-- The part of a block around a match, where the block is over the limit,
-- `_oversized_block_excerpt` of infrastructure/source/chunker.py.
use Prim.Native.Nat.{min}
use omf_retrieval.Indexing.Chunker.Context.{ContextSearchBudget, context_search_budget, spend}
use omf_retrieval.Indexing.Chunker.Excerpt.{Excerpt, slice_excerpt}
use omf_retrieval.Indexing.Chunker.Groups.{token_offset_groups}
use omf_retrieval.Indexing.Chunker.Tokens.{Span, TokenCounter, token_count, token_offsets}
use omf_retrieval.Prelude.{
  Bool, List, Option, Result, [], contains, get_elem?, if◌then◌else◌, index_error, keep, leb,
  length, ltb, map, nat_beq, nat_eq, none, not, ok, raise, require, some, value_error, ℕ, ◌&&◌, ◌*◌,
  ◌++◌, ◌+◌, ◌-◌, ◌/◌, ◌>>=◌, ◌>>◌, ◌||◌, ◌∷◌,
}
use omf_retrieval.Prelude.Slices.{slice}
use omf_retrieval.Prelude.Sort.{sorted}
use omf_retrieval.Prelude.Text.{Text}

-- `sorted` of a set
unfoldable pub unique : List ℕ → List ℕ
unique [] = []
unique (n ∷ l) = let rest = unique l in if contains rest n then rest else n ∷ rest

-- the windows from a window on; `lefts` are the starts of groups before it, the nearest first, and
-- `rights` the ends behind it
unfoldable pub spans_from : ℕ → ℕ → Span → List ℕ → List ℕ → List Span
spans_from matched_start matched_end w [] [] = w ∷ []
spans_from matched_start matched_end (a, z) (l ∷ lefts) [] =
    (a, z) ∷ spans_from matched_start matched_end (l, z) lefts []
spans_from matched_start matched_end (a, z) [] (r ∷ rights) =
    (a, z) ∷ spans_from matched_start matched_end (a, r) [] rights
spans_from matched_start matched_end (a, z) (l ∷ lefts) (r ∷ rights) =
    let to_left = spans_from matched_start matched_end (l, z) lefts (r ∷ rights) in
    let to_right = spans_from matched_start matched_end (a, r) (l ∷ lefts) rights in
    (a, z) ∷ (if leb (matched_start - l) (r - matched_end) then to_left else to_right)

unfoldable pub context_expansion_windows : List Span → ℕ → ℕ → List Span
context_expansion_windows offsets matched_start matched_end =
    let token_groups = token_offset_groups offsets in
    let starts = map (λ (g : ℕ × ℕ × ℕ). g.0) token_groups in
    let ends = map (λ (g : ℕ × ℕ × ℕ). g.1) token_groups in
    spans_from matched_start matched_end (matched_start, matched_end)
      (sorted (λ a b. ltb b a) (unique (keep (λ s. ltb s matched_start) starts)))
      (sorted ltb (unique (keep (λ e. ltb matched_end e) ends)))

-- the indices that are not seen, in the order of the candidates; a negative index is `none`
unfoldable pub add_seen : ℕ → List (Option ℕ) → List ℕ → List ℕ
add_seen last [] indices = indices
add_seen last (none ∷ candidates) indices = add_seen last candidates indices
add_seen last (some c ∷ candidates) indices =
    add_seen last candidates
      (if leb c last && not (contains indices c) then indices ++ c ∷ [] else indices)

abbrev pub index_below : ℕ → ℕ → Option ℕ
index_below center distance = if leb distance center then some (center - distance) else none

-- a center with its neighbors at the distances up to `_CONTEXT_NEIGHBOR_RADIUS`
abbrev pub neighbors : ℕ → List (Option ℕ)
neighbors center =
    some center
    ∷ index_below center 1
    ∷ some (center + 1)
    ∷ index_below center 2
    ∷ some (center + 2)
    ∷ []

unfoldable pub context_probe_indices : ℕ → ℕ → List ℕ
context_probe_indices window_count expected_expansions =
    let last = window_count - 1 in
    let expected = min expected_expansions last in
    let others = some (last / 2) ∷ some (last / 4) ∷ some (3 * last / 4) ∷ [] in
    add_seen last (neighbors last ++ neighbors expected ++ others) []

abbrev pub is_better : Span → Span → Bool
is_better (candidate_start, candidate_end) (best_start, best_end) =
    ltb (best_end - best_start) (candidate_end - candidate_start)
    || (nat_beq (candidate_end - candidate_start) (best_end - best_start)
        && ltb candidate_start best_start)

unfoldable pub span_at : List Span → ℕ → Result Span
span_at windows i = elim (get_elem? windows i) [ none ↦ raise index_error | some w ↦ ok w ]

-- the loop over the indices
unfoldable pub widest_span :
    TokenCounter → ℕ → Text → List Span → Span → ContextSearchBudget → List ℕ → Result Span
widest_span counter limit text windows best budget [] = ok best
widest_span counter limit text windows best budget (i ∷ indices) = do
  w ← span_at windows i
  let candidate_text = slice text w.0 w.1
  elim (spend budget (length candidate_text)) [
    | none ↦ ok best
    | some budget' ↦ do
      count ← token_count counter candidate_text
      widest_span counter limit text windows
          (if leb count limit && is_better w best then w else best) budget' indices
  ]

unfoldable pub oversized_block_excerpt : TokenCounter → ℕ → Excerpt → ℕ → ℕ → Result Excerpt
oversized_block_excerpt counter limit x matched_start matched_end = do
  matched_token_count ← token_count counter (slice x.raw_text matched_start matched_end)
  require (leb matched_token_count limit) value_error
  offsets ← token_offsets counter x.raw_text
  let windows = context_expansion_windows offsets matched_start matched_end
  let indices = context_probe_indices (length windows) (limit - matched_token_count)
  let budget = context_search_budget (length x.raw_text) limit
  best ← widest_span counter limit x.raw_text windows (matched_start, matched_end) budget indices
  slice_excerpt x best.0 best.1
