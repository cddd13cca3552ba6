-- ===== src/Indexing/Chunker/Source/Normal.antt =====
-- Children of ordinary blocks are exact slices, and what is pending ends where the blocks end.
use Prim.Native.Nat.{min}
use mathlib.Core.Path.{subst}
use omf_retrieval.Indexing.Chunker.Excerpt.{Excerpt}
use omf_retrieval.Indexing.Chunker.Groups.{ceil_token_group_boundary, token_boundary}
use omf_retrieval.Indexing.Chunker.Groups.Laws.{ceil-Ensures, token_group_boundaries-BeginsAtZero}
use omf_retrieval.Indexing.Chunker.Limits.{IsLimits}
use omf_retrieval.Indexing.Chunker.Normal.{
  NormalSplit, Progress, ended, going_on, last_piece, next_window, rest_of_tokens, round,
  slice_tokens, split_oversized_normal, split_rounds, take_window, window_end_of,
}
use omf_retrieval.Indexing.Chunker.Normal.Fits.{AllOption, IsSplit, window_end_of-Ensures}
use omf_retrieval.Indexing.Chunker.Normal.Pack.{split_oversized_normal-Ensures, window_limit_of-le}
use omf_retrieval.Indexing.Chunker.Source.{At, IsSource, slice_excerpt_with_line_ends-At}
use omf_retrieval.Indexing.Chunker.Tokens.{Span, token_count, token_offsets}
use omf_retrieval.Indexing.Chunker.Tokens.Laws.{
  IsWithin, token_count-Halts, token_offsets-IsOffsets,
}
use omf_retrieval.Indexing.Chunker.Window.{Chunker}
use omf_retrieval.Prelude.{
  >>=-elim, All, All-append, List, Option, Result, [], arith, false, get_elem?, if◌then◌else◌,
  index_error, leb, length, ltb, nat_beq, none, ok, ok-injective, raise, raise-ne-ok, refl, require,
  some, suc, true, value_error, zero, ℕ, ◌++◌, ◌+◌, ◌-◌, ◌/◌, ◌∷◌, ◌≡◌, ◌≤◌,
}
use omf_retrieval.Prelude.Ensures.{
  Ensures, Ensures-at, Ensures-bind, Ensures-branch, Ensures-imp, Ensures-with, refused, returned,
}
use omf_retrieval.Prelude.Text.{Text}

-- a token begins within the text
token_boundary-le :
    (offsets : List Span) (index size : ℕ)
    → All (IsWithin size) offsets
    → Ensures (λ c. c ≤ size) (token_boundary offsets index size)
unfolding token_boundary
token_boundary-le offsets index size w =
    Ensures-branch (nat_beq index 0) _ _ (returned 0 (omega arith)) (
      Ensures-branch (nat_beq index (length offsets)) _ _ (returned size (omega arith))
        (element_start offsets index w))
  where
    element_start :
        (offsets : List Span) (index : ℕ)
        → All (IsWithin size) offsets
        → Ensures
            (λ c. c ≤ size)
            (elim (get_elem? offsets index) as (λ _. Result ℕ) [
              | none ↦ raise index_error
              | some span ↦ ok span.0
            ])
    element_start [] index w = refused index_error tt
    element_start (s ∷ offsets) zero w = returned s.0 (omega arith)
    element_start (s ∷ offsets) (suc index) w = element_start offsets index w.1

module _ (body : Text) (a b : ℕ) (x : Excerpt) (at : At body a b x) (offsets : List Span)
    (line_ends : List ℕ) (w : All (IsWithin (length x.raw_text)) offsets) where
  pub slice_tokens-IsSource :
      (i j : ℕ) → Ensures (IsSource body) (slice_tokens x offsets line_ends i j)
  unfolding slice_tokens
  slice_tokens-IsSource i j =
      let size = length x.raw_text in
      Ensures-bind (token_boundary offsets i size) _ (token_boundary-le offsets i size w)
        λ first q h.
          Ensures-bind (token_boundary offsets j size) _ (token_boundary-le offsets j size w)
            λ last q' h'.
              Ensures-imp (λ y s. (s.0, s.1, s.2))
                (slice_excerpt_with_line_ends-At body a b first last x line_ends at h')

  rest_of_tokens-At :
      (i : ℕ) → Ensures (λ y. (k : ℕ) × At body k b y) (rest_of_tokens x offsets line_ends i)
  unfolding rest_of_tokens
  rest_of_tokens-At i =
      let size = length x.raw_text in
      Ensures-bind (token_boundary offsets i size) _ (token_boundary-le offsets i size w)
        λ first q h.
          Ensures-imp (λ y s. (s.0, subst (λ m. At body s.0 m y) (s.3 refl) s.2))
            (slice_excerpt_with_line_ends-At body a b first size x line_ends at (omega arith))

-- the pieces are slices, and the last one ends at `b`
abbrev pub SplitAt : Text → ℕ → List Excerpt × Excerpt → Type 0
SplitAt body b r = All (IsSource body) r.0 × ((k : ℕ) × At body k b r.1)

abbrev pub RoundAt : Text → ℕ → Option Excerpt × Progress → Type 0
RoundAt body b (some pending, p) = SplitAt body b (p.chunks, pending)
RoundAt body b (none, p) = All (IsSource body) p.chunks

module _ (chunker : Chunker) (body : Text) (a b : ℕ) (n : NormalSplit) (at : At body a b n.excerpt)
    (w : All (IsWithin (length n.excerpt.raw_text)) n.offsets) (s : IsSplit chunker n) where
  last_piece-At :
      (cursor : ℕ)
      → Ensures (AllOption (λ y. (k : ℕ) × At body k b y)) (last_piece chunker n cursor)
  unfolding last_piece
  last_piece-At cursor =
      Ensures-bind (rest_of_tokens n.excerpt n.offsets n.line_ends cursor) _
        (rest_of_tokens-At body a b n.excerpt at n.offsets n.line_ends w cursor)
        λ y q h.
          let text = n.heading_prefix ++ y.raw_text in
          Ensures-bind (token_count chunker.counter text) _ (token_count-Halts chunker.counter text)
            λ count q' h'.
              returned (if leb count chunker.config.soft_max_tokens then some y else none)
                (elim (leb count chunker.config.soft_max_tokens)
                  as (λ c. AllOption (λ y. (k : ℕ) × At body k b y) (if c then some y else none)) [
                    | true ↦ h
                    | false ↦ tt
                  ])

  next_window-IsSource :
      (p : Progress) (source_budget limit : ℕ)
      → limit ≤ chunker.config.soft_max_tokens
      → All (IsSource body) p.chunks
      → Ensures (λ p'. All (IsSource body) p'.chunks) (next_window chunker n p source_budget limit)
  unfolding next_window take_window
  next_window-IsSource p source_budget limit below c =
      Ensures-bind (window_end_of chunker n p.cursor source_budget limit p.search_budget) _
        (window_end_of-Ensures chunker n p.cursor source_budget limit p.search_budget s below)
        λ r q h.
          let overlap = min chunker.config.overlap_tokens ((r.0 - p.cursor) / 2) in
          Ensures-branch (leb r.0 p.covered_end) _ _
            (returned (record p { cursor = p.covered_end; search_budget = r.1 }) c)
            (Ensures-bind (slice_tokens n.excerpt n.offsets n.line_ends p.cursor r.0) _
              (slice_tokens-IsSource body a b n.excerpt at n.offsets n.line_ends w p.cursor r.0)
              λ piece q' from_source.
                Ensures-bind (ceil_token_group_boundary n.boundaries (r.0 - overlap)) _
                  (ceil-Ensures n.boundaries (r.0 - overlap))
                  λ cursor q'' le.
                    returned _
                      (All-append (IsSource body) p.chunks (piece ∷ []) c (from_source, tt)))

  going_on-At :
      (r : Result Progress)
      → Ensures (λ p. All (IsSource body) p.chunks) r
      → Ensures (RoundAt body b) (going_on r)
  going_on-At r h = Ensures-bind r _ h λ p q c. returned (none, p) c

  ended-At :
      (p : Progress) (found : Option Excerpt)
      → All (IsSource body) p.chunks
      → AllOption (λ y. (k : ℕ) × At body k b y) found
      → Ensures (RoundAt body b) (ended chunker n p found)
  unfolding ended
  ended-At p (some pending) c h = returned (some pending, p) (c, h)
  ended-At p none c h =
      let soft = chunker.config.soft_max_tokens in
      going_on-At _ (next_window-IsSource p n.soft_budget soft (omega arith) c)

  round-At :
      (p : Progress) → All (IsSource body) p.chunks → Ensures (RoundAt body b) (round chunker n p)
  unfolding round
  round-At p c =
      Ensures-branch _ _ _
        (Ensures-bind (last_piece chunker n p.cursor) _ (last_piece-At p.cursor)
          λ found q h. ended-At p found c h)
        (going_on-At _ (next_window-IsSource p n.window_budget n.window_limit s.within c))

  split_rounds-At :
      (fuel : ℕ) (p : Progress) {r : List Excerpt × Excerpt}
      → All (IsSource body) p.chunks
      → split_rounds fuel chunker n p ≡ ok r
      → SplitAt body b r
  unfolding split_rounds
  split_rounds-At zero p c e = absurd (raise-ne-ok e)
  split_rounds-At (suc fuel) p {r} c e = >>=-elim (round chunker n p) _ e λ found q rest.
      elim found.0
          as (λ o.
            RoundAt body b (o, found.1)
            → (elim o as (λ _. Result (List Excerpt × Excerpt)) [
              | some pending ↦ ok (found.1.chunks, pending)
              | none ↦ split_rounds fuel chunker n found.1
            ])
              ≡ ok r
            → SplitAt body b r) [
              | some pending ↦ λ done same. subst (SplitAt body b) (ok-injective same) done
              | none ↦ λ more same. split_rounds-At fuel found.1 more same
            ]
        (Ensures-at (round-At p c) q) rest

-- the windows of one excerpt are slices, and what is left ends where the excerpt ends
pub split_oversized_normal-At :
    (chunker : Chunker) (body : Text) (a b : ℕ) (x : Excerpt) (heading_prefix : Text)
    → IsLimits chunker.config
    → At body a b x
    → Ensures (SplitAt body b) (split_oversized_normal chunker x heading_prefix)
unfolding split_oversized_normal
split_oversized_normal-At chunker body a b x heading_prefix l at =
    Ensures-with (split_oversized_normal-Ensures chunker x heading_prefix l) λ r e.
      >>=-elim (token_offsets chunker.counter x.raw_text) _ e λ offsets q e1.
        >>=-elim (token_count chunker.counter heading_prefix) _ e1 λ prefix_tokens q' e2.
          >>=-elim (require (ltb 0 (chunker.config.soft_max_tokens - prefix_tokens)) value_error) _
            e2
            λ u q'' e3.
              let o = Ensures-at (token_offsets-IsOffsets chunker.counter x.raw_text) q in
              split_rounds-At chunker body a b _ at o.within
                (record {
                  begins = token_group_boundaries-BeginsAtZero offsets;
                  within = window_limit_of-le chunker.config prefix_tokens l;
                })
                (length offsets + 1) _ tt e3
