-- ===== src/Indexing/Chunker/Context/Widest.antt =====
-- What `_oversized_block_excerpt` of infrastructure/source/chunker.py cuts out of a block holds the
-- match and is within the limit.
use Prim.Native.Nat.{max}
use omf_retrieval.Indexing.Chunker.Context.{ContextSearchBudget, context_search_budget, spend}
use omf_retrieval.Indexing.Chunker.Context.Chosen.{FitsLimit, span_at-All}
use omf_retrieval.Indexing.Chunker.Context.Oversized.{
  context_expansion_windows, context_probe_indices, is_better, oversized_block_excerpt, span_at,
  spans_from, unique, widest_span,
}
use omf_retrieval.Indexing.Chunker.Excerpt.{Excerpt}
use omf_retrieval.Indexing.Chunker.Excerpt.Laws.{slice_excerpt-Ensures}
use omf_retrieval.Indexing.Chunker.Groups.{offset_groups_from, token_offset_groups}
use omf_retrieval.Indexing.Chunker.Tokens.{Span, TokenCounter, token_count, token_offsets}
use omf_retrieval.Indexing.Chunker.Tokens.Laws.{
  IsWithin, token_count-Halts, token_offsets-IsOffsets,
}
use omf_retrieval.Indexing.Chunker.Units.Preorder.{below}
use omf_retrieval.Prelude.{
  &&-split, All, All-imp, Bool-cases, List, Option-cases, [], arith, contains, if◌then◌else◌, inl,
  inr, keep, keep-All, leb, leb→le, length, ltb, ltb→lt, map, nat_eq, true, value_error, ℕ, ◌&&◌,
  ◌+◌, ◌-◌, ◌∷◌, ◌≡◌, ◌≤◌,
}
use omf_retrieval.Prelude.Ensures.{Ensures, Ensures-bind, Ensures-imp, Ensures-require, returned}
use omf_retrieval.Prelude.Slices.{slice}
use omf_retrieval.Prelude.Sort.{sorted-All}
use omf_retrieval.Prelude.Text.{Text}

groups_from-within :
    (size a z first index : ℕ) (spans : List Span)
    → z ≤ size
    → All (IsWithin size) spans
    → All (λ (g : ℕ × ℕ × ℕ). g.1 ≤ size) (offset_groups_from a z first index spans)
unfolding offset_groups_from
groups_from-within size a z first index [] h each = (h, tt)
groups_from-within size a z first index ((i, j) ∷ spans) h each = elim (Bool-cases (leb z i)) [
  | inl e ↦
      rw (e, offset_groups_from)
        (h, groups_from-within size i j index (index + 1) spans each.0.1 each.1)
  | inr e ↦
      rw (e, offset_groups_from)
        (groups_from-within size a (max z j) first (index + 1) spans (omega (arith, each.0.1))
          each.1)
]

groups-within :
    (size : ℕ) (spans : List Span)
    → All (IsWithin size) spans
    → All (λ (g : ℕ × ℕ × ℕ). g.1 ≤ size) (token_offset_groups spans)
unfolding token_offset_groups
groups-within size [] h = tt
groups-within size ((i, j) ∷ spans) h = groups_from-within size i j 0 1 spans h.0.1 h.1

unique-All : (P : ℕ → Type 0) (l : List ℕ) → All P l → All P (unique l)
unfolding unique
unique-All P [] h = tt
unique-All P (n ∷ l) h = elim (Bool-cases (contains (unique l) n)) [
  | inl e ↦ rw e (unique-All P l h.1)
  | inr e ↦ rw e (h.0, unique-All P l h.1)
]

ends-within :
    (size : ℕ) (groups : List (ℕ × ℕ × ℕ))
    → All (λ (g : ℕ × ℕ × ℕ). g.1 ≤ size) groups
    → All (λ e. e ≤ size) (map (λ (g : ℕ × ℕ × ℕ). g.1) groups)
ends-within size [] h = tt
ends-within size (g ∷ groups) h = (h.0, ends-within size groups h.1)

module _ (matched_start matched_end size : ℕ) where
  -- a range of characters that holds the match
  abbrev pub Holds : Span → Type 0
  Holds w = (w.0 ≤ matched_start) × ((matched_end ≤ w.1) × (w.1 ≤ size))

  abbrev IsRight : ℕ → Type 0
  IsRight r = (matched_end ≤ r) × (r ≤ size)

  spans_from-Holds :
      (w : Span) (lefts rights : List ℕ)
      → Holds w
      → All (λ l. l ≤ matched_start) lefts
      → All IsRight rights
      → All Holds (spans_from matched_start matched_end w lefts rights)
  unfolding spans_from
  spans_from-Holds (a, z) [] [] h left right = (h, tt)
  spans_from-Holds (a, z) (l ∷ lefts) [] h left right =
      (h, spans_from-Holds (l, z) lefts [] (left.0, h.1) left.1 right)
  spans_from-Holds (a, z) [] (r ∷ rights) h left right =
      (h, spans_from-Holds (a, r) [] rights (h.0, right.0) left right.1)
  spans_from-Holds (a, z) (l ∷ lefts) (r ∷ rights) h left right =
      let to_left = spans_from-Holds (l, z) lefts (r ∷ rights) (left.0, h.1) left.1 right in
      let to_right = spans_from-Holds (a, r) (l ∷ lefts) rights (h.0, right.0) left right.1 in
      elim (Bool-cases (leb (matched_start - l) (r - matched_end))) [
        | inl e ↦ rw e (h, to_left)
        | inr e ↦ rw e (h, to_right)
      ]

  rights-IsRight :
      (ends : List ℕ) → All (λ e. e ≤ size) ends → All IsRight (keep (λ e. ltb matched_end e) ends)
  unfolding keep
  rights-IsRight [] h = tt
  rights-IsRight (e ∷ ends) h = elim (Bool-cases (ltb matched_end e)) [
    | inl above ↦
        rw (above, keep) ((omega (arith, ltb→lt matched_end e above), h.0), rights-IsRight ends h.1)
    | inr below ↦ rw (below, keep) (rights-IsRight ends h.1)
  ]

  windows-Hold :
      (offsets : List Span)
      → All (IsWithin size) offsets
      → matched_end ≤ size
      → All Holds (context_expansion_windows offsets matched_start matched_end)
  unfolding context_expansion_windows
  windows-Hold offsets h k =
      let groups = token_offset_groups offsets in
      let starts = map (λ (g : ℕ × ℕ × ℕ). g.0) groups in
      let ends = map (λ (g : ℕ × ℕ × ℕ). g.1) groups in
      let left =
        All-imp (λ s. ltb s matched_start ≡ true) (λ s. s ≤ matched_start)
          (λ s e. omega (arith, ltb→lt s matched_start e)) (keep (λ s. ltb s matched_start) starts)
          (keep-All (λ s. ltb s matched_start) starts) in
      let right = rights-IsRight ends (ends-within size groups (groups-within size offsets h)) in
      spans_from-Holds (matched_start, matched_end) _ _ (omega arith, (omega arith, k))
        (sorted-All (λ a b. ltb b a) (λ s. s ≤ matched_start) _ (unique-All _ _ left))
        (sorted-All ltb IsRight _ (unique-All _ _ right))

-- a range that holds the match, with a text within the limit
abbrev pub IsSpan : TokenCounter → ℕ → Text → ℕ → ℕ → Span → Type 0
IsSpan counter limit text matched_start matched_end w =
    Holds matched_start matched_end (length text) w × FitsLimit counter limit (slice text w.0 w.1)

module _ (counter : TokenCounter) (limit : ℕ) (text : Text) (matched_start matched_end : ℕ) where
  wider :
      (w best : Span) (count : ℕ)
      → IsSpan counter limit text matched_start matched_end best
      → (count ≤ limit → IsSpan counter limit text matched_start matched_end w)
      → IsSpan counter limit text matched_start matched_end
          (if leb count limit && is_better w best then w else best)
  wider w best count h k = elim (Bool-cases (leb count limit && is_better w best)) [
    | inl e ↦ rw e (k (leb→le count limit (&&-split _ _ e).0))
    | inr e ↦ rw e h
  ]

  widest_span-IsSpan :
      (windows : List Span) (indices : List ℕ) (best : Span) (budget : ContextSearchBudget)
      → All (Holds matched_start matched_end (length text)) windows
      → IsSpan counter limit text matched_start matched_end best
      → Ensures
          (IsSpan counter limit text matched_start matched_end)
          (widest_span counter limit text windows best budget indices)
  unfolding widest_span
  widest_span-IsSpan windows [] best budget each h = returned best h
  widest_span-IsSpan windows (i ∷ indices) best budget each h =
      Ensures-bind (span_at windows i) _
        (span_at-All (Holds matched_start matched_end (length text)) windows i each)
        λ w q at.
          let candidate = slice text w.0 w.1 in
          elim (Option-cases (spend budget (length candidate))) [
            | inl e ↦ rw (e, widest_span) (returned best h)
            | inr (budget', e) ↦ rw e (
                Ensures-bind (token_count counter candidate) _ (token_count-Halts counter candidate)
                  λ count counted u.
                    widest_span-IsSpan windows indices _ budget' each
                      (wider w best count h (λ fits. (at, (count, (counted, fits))))))
          ]

-- a part of the block around the match
pub record IsPart (counter : TokenCounter) (limit : ℕ) (text : Text) (i j : ℕ) (y : Excerpt)
    : Type 0 where
  pub w : Span
  pub holds : Holds i j (length text) w
  pub cut : y.raw_text ≡ slice text w.0 w.1
  pub fits : FitsLimit counter limit y.raw_text

pub oversized_block_excerpt-IsPart :
    (counter : TokenCounter) (limit : ℕ) (x : Excerpt) (i j : ℕ)
    → j ≤ length x.raw_text
    → Ensures (IsPart counter limit x.raw_text i j) (oversized_block_excerpt counter limit x i j)
unfolding oversized_block_excerpt
oversized_block_excerpt-IsPart counter limit x i j h =
    let text = x.raw_text in
    Ensures-bind (token_count counter (slice text i j)) _
      (token_count-Halts counter (slice text i j))
      λ count counted u. Ensures-require (leb count limit) value_error _ tt λ fits.
        Ensures-bind (token_offsets counter text) _ (token_offsets-IsOffsets counter text)
          λ offsets q o.
            let windows = context_expansion_windows offsets i j in
            let indices = context_probe_indices (length windows) (limit - count) in
            let budget = context_search_budget (length text) limit in
            let matched : IsSpan counter limit text i j (i, j) =
              ((omega arith, (omega arith, h)), (count, (counted, leb→le count limit fits))) in
            Ensures-bind (widest_span counter limit text windows (i, j) budget indices) _
              (widest_span-IsSpan counter limit text i j windows indices (i, j) budget
                (windows-Hold i j (length text) offsets o.within h) matched)
              λ w q' is.
                Ensures-imp (λ y cut. record { w = w; holds = is.0; cut = cut; fits = rw cut is.1 })
                  (slice_excerpt-Ensures x w.0 w.1)
