-- ===== src/Indexing/Chunker/Context/Chosen.antt =====
-- The windows of blocks that infrastructure/source/chunker.py selects are within the limit, and the
-- search for them ends.
use mathlib.Core.Path.{subst}
use omf_retrieval.Indexing.Chunker.Context.{
  ContextSearchBudget, Side, Window, block_context_probe_indices, block_expansion_windows,
  can_exhaustively_expand_blocks, context_search_budget, grown, sorted_sides, spend,
}
use omf_retrieval.Indexing.Chunker.Context.Grow.{
  Around, CanGrow, IsSeed, block_context_probe_indices-Halts, block_expansion_windows-Around,
  grown-Around, room, seed-Around, sorted_sides-CanGrow,
}
use omf_retrieval.Indexing.Chunker.Context.Halting.{excerpt_of-Halts, window_counts-Halts}
use omf_retrieval.Indexing.Chunker.Context.Oversized.{span_at}
use omf_retrieval.Indexing.Chunker.Context.Parts.{block_window_source_token_counts}
use omf_retrieval.Indexing.Chunker.Context.Select.{
  Growth, Selected, Selection, added, excerpt_of, expand_seed, grow, grow_once, growth_fuel,
  probe_windows, select_blocks_bounded, spend_of, spent, stuck,
}
use omf_retrieval.Indexing.Chunker.Excerpt.{Excerpt, total_length}
use omf_retrieval.Indexing.Chunker.Tokens.{Span, TokenCounter, token_count, token_offsets}
use omf_retrieval.Indexing.Chunker.Tokens.Laws.{token_count-Halts, token_offsets-IsOffsets}
use omf_retrieval.Indexing.Ports.Lines.{joined}
use omf_retrieval.Prelude.{
  &&-split, All, Bool-cases, List, Option, Option-cases, Result, [], arith, get_elem?,
  if◌then◌else◌, index_error, inl, inr, leb, leb→le, length, ltb, none, none-ne-some, ok, some,
  some_injective, suc, zero, ℕ, ◌&&◌, ◌<◌, ◌∷◌, ◌≡◌, ◌≤◌,
}
use omf_retrieval.Prelude.Ensures.{Ensures, Ensures-bind, Ensures-branch, refused, returned}
use omf_retrieval.Prelude.Text.{Text}

abbrev pub FitsLimit : TokenCounter → ℕ → Text → Type 0
FitsLimit counter limit text = (n : ℕ) × ((token_count counter text ≡ ok n) × (n ≤ limit))

-- a window around the seed, whose excerpt is within the limit
pub record IsSelected (s : Selection) (c : Selected) : Type 0 where
  pub around : Around s.seed c.0
  pub made : excerpt_of s c.0 ≡ ok c.1
  pub fits : FitsLimit s.counter s.limit c.1.raw_text

-- the excerpt of a window that is selected
abbrev pub IsChosen : Selection → Excerpt → Type 0
IsChosen s x = (w : Window) × IsSelected s (w, x)

All-get :
    (P : Span → Type 0) (l : List Span) (i : ℕ) (w : Span) → All P l → get_elem? l i ≡ some w → P w
All-get P [] i w h e = absurd (none-ne-some e)
All-get P (x ∷ l) zero w h e = subst P (some_injective e) h.0
All-get P (x ∷ l) (suc i) w h e = All-get P l i w h.1 e

pub span_at-All :
    (P : Span → Type 0) (windows : List Span) (i : ℕ)
    → All P windows
    → Ensures P (span_at windows i)
unfolding span_at
span_at-All P windows i h = elim (Option-cases (get_elem? windows i)) [
  | inl e ↦ rw (e, span_at) (refused index_error tt)
  | inr (w, e) ↦ rw (e, span_at) (returned w (All-get P windows i w h e))
]

module _ (s : Selection) where
  -- what an attempt from a window gives
  abbrev IsGrowth : Window → Growth → Type 0
  IsGrowth w (added c budget) = IsSelected s c × (room s.seed c.0 < room s.seed w)
  IsGrowth w _ = Unit {0}

  grow_once-IsGrowth :
      (w : Window) (budget : Option ContextSearchBudget) (sides : List Side)
      → Around s.seed w
      → All (CanGrow s.seed w) sides
      → Ensures (IsGrowth w) (grow_once s w budget sides)
  unfolding grow_once
  grow_once-IsGrowth w budget [] h can = returned stuck tt
  grow_once-IsGrowth w budget (side ∷ sides) h can =
      let (around, less) = grown-Around s.seed w side h can.0 in
      Ensures-bind (excerpt_of s (grown side w)) _ (excerpt_of-Halts s (grown side w)) λ x made u.
        elim (Option-cases (spend_of budget (length x.raw_text))) [
          | inl e ↦ rw (e, grow_once) (returned spent tt)
          | inr (budget', e) ↦ rw e (
              Ensures-bind (token_count s.counter x.raw_text) _
                (token_count-Halts s.counter x.raw_text)
                λ count counted u'. elim (Bool-cases (leb count s.limit)) [
                  | inl fits ↦ rw fits (
                      returned _ (
                        record {
                          around = around;
                          made = made;
                          fits = (count, (counted, leb→le count s.limit fits));
                        },
                        less,
                      ))
                  | inr over ↦ rw over (grow_once-IsGrowth w budget' sides h can.1)
                ])
        ]

  pub grow-IsChosen :
      (fuel : ℕ) (best : Selected) (budget : Option ContextSearchBudget)
      → IsSelected s best
      → room s.seed best.0 < fuel
      → Ensures (IsChosen s) (grow fuel s best budget)
  unfolding grow
  grow-IsChosen zero best budget h k = absurd (omega arith)
  grow-IsChosen (suc fuel) best budget h k =
      Ensures-bind (grow_once s best.0 budget (sorted_sides s.seed best.0)) _
        (grow_once-IsGrowth best.0 budget (sorted_sides s.seed best.0) h.around
          (sorted_sides-CanGrow s.seed best.0))
        λ growth q is.
          elim growth
              as (λ g.
                IsGrowth best.0 g
                → Ensures (IsChosen s) (elim g as (λ _. Result Excerpt) [
                  | spent ↦ ok best.1
                  | stuck ↦ ok best.1
                  | added selected budget' ↦ grow fuel s selected budget'
                ])) [
                  | spent ↦ λ g. returned best.1 (best.0, h)
                  | stuck ↦ λ g. returned best.1 (best.0, h)
                  | added selected budget' ↦
                      λ g. grow-IsChosen fuel selected budget' g.0 (omega (arith, g.1))
                ]
            is

  -- the better one of two
  better :
      (best c : Selected) (count : ℕ)
      → IsSelected s best
      → (count ≤ s.limit → IsSelected s c)
      → IsSelected s (
          if leb count s.limit && ltb (length best.1.raw_text) (length c.1.raw_text)
          then c
          else best)
  better best c count h k =
      elim (Bool-cases (leb count s.limit && ltb (length best.1.raw_text) (length c.1.raw_text))) [
        | inl e ↦ rw e (k (leb→le count s.limit (&&-split _ _ e).0))
        | inr e ↦ rw e h
      ]

  room-le : (w : Window) → Around s.seed w → IsSeed s.seed → room s.seed w < growth_fuel s
  room-le w h k = omega (arith, h.0, h.1.0, h.1.1, k.0, k.1)

  probe_windows-IsSelected :
      (windows : List Window) (indices : List ℕ) (best : Selected) (budget : ContextSearchBudget)
      → All (Around s.seed) windows
      → IsSelected s best
      → Ensures (λ r. IsSelected s r.0) (probe_windows s windows best budget indices)
  unfolding probe_windows
  probe_windows-IsSelected windows [] best budget around h = returned (best, budget) h
  probe_windows-IsSelected windows (i ∷ indices) best budget around h =
      Ensures-bind (span_at windows i) _ (span_at-All (Around s.seed) windows i around) λ w q at.
        Ensures-bind (excerpt_of s w) _ (excerpt_of-Halts s w) λ x made u.
          elim (Option-cases (spend budget (length x.raw_text))) [
            | inl e ↦ rw (e, probe_windows) (returned (best, budget) h)
            | inr (budget', e) ↦ rw e (
                Ensures-bind (token_count s.counter x.raw_text) _
                  (token_count-Halts s.counter x.raw_text)
                  λ count counted u'. probe_windows-IsSelected windows indices _ budget' around (
                    better best (w, x) count h
                      (λ fits. record {
                        around = at;
                        made = made;
                        fits = (count, (counted, fits));
                      })))
          ]

  -- where the blocks of the match are within the limit, the search ends with a window around them
  pub expand_seed-IsChosen :
      (x : Excerpt)
      → IsSeed s.seed
      → excerpt_of s (s.seed.first, s.seed.last) ≡ ok x
      → FitsLimit s.counter s.limit x.raw_text
      → Ensures (IsChosen s) (expand_seed s x)
  unfolding expand_seed select_blocks_bounded
  expand_seed-IsChosen x seed made fits =
      let first : Selected = ((s.seed.first, s.seed.last), x) in
      let selected : IsSelected s first = record {
        around = seed-Around s.seed seed;
        made = made;
        fits = fits;
      } in
      let source_length = total_length s.source_lines in
      let budget = context_search_budget source_length s.limit in
      Ensures-bind (block_expansion_windows s.seed) _ (block_expansion_windows-Around s.seed seed)
        λ windows q around.
          Ensures-branch (can_exhaustively_expand_blocks windows source_length budget) _ _
            (grow-IsChosen (growth_fuel s) first none selected
              (room-le (s.seed.first, s.seed.last) selected.around seed))
            (Ensures-bind (token_offsets s.counter (joined s.source_lines)) _
              (token_offsets-IsOffsets s.counter (joined s.source_lines))
              λ offsets q' h'.
                Ensures-bind
                  (block_window_source_token_counts s.source_lines s.blocks windows offsets) _
                  (window_counts-Halts s.source_lines s.blocks windows offsets)
                  λ counts q2 h2.
                    Ensures-bind (block_context_probe_indices counts s.limit) _
                      (block_context_probe_indices-Halts counts s.limit)
                      λ indices q3 h3.
                        Ensures-bind (probe_windows s windows first budget indices) _
                          (probe_windows-IsSelected windows indices first budget around selected)
                          λ r q4 best.
                            grow-IsChosen (growth_fuel s) r.0 (some r.1) best
                              (room-le r.0.0 best.around seed))
