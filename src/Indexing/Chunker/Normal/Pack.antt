-- ===== src/Indexing/Chunker/Normal/Pack.antt =====
-- Children of ordinary blocks, from the rounds of one split to the packing of blocks.
use omf_retrieval.Indexing.Chunker.Excerpt.{Excerpt}
use omf_retrieval.Indexing.Chunker.Groups.Laws.{token_group_boundaries-BeginsAtZero}
use omf_retrieval.Indexing.Chunker.Limits.{IsLimits}
use omf_retrieval.Indexing.Chunker.Normal.{
  NormalSplit, Progress, ended, going_on, has_target_window, last_piece, round,
  split_oversized_normal, split_rounds, window_limit_of,
}
use omf_retrieval.Indexing.Chunker.Normal.Fits.{
  Advanced, AllOption, FitsIn, FitsSoft, IsSplit, last_piece-Ensures, next_window-Ensures,
}
use omf_retrieval.Indexing.Chunker.Tokens.{token_count, token_offsets}
use omf_retrieval.Indexing.Chunker.Tokens.Laws.{token_count-Halts, token_offsets-IsOffsets}
use omf_retrieval.Indexing.Chunker.Window.{Chunker, Limits}
use omf_retrieval.Prelude.{
  All, List, Option, Result, arith, false, if◌then◌else◌, length, ltb, none, ok, some, suc, true,
  value_error, zero, ℕ, ◌+◌, ◌-◌, ◌<◌, ◌≤◌,
}
use omf_retrieval.Prelude.Ensures.{Ensures, Ensures-bind, Ensures-branch, Ensures-require, returned}
use omf_retrieval.Prelude.Text.{Text}

-- a round ends with the last piece, or goes on
abbrev RoundDone : Chunker → NormalSplit → Progress → Option Excerpt × Progress → Type 0
RoundDone chunker n p (some pending, p') =
    FitsSoft chunker n pending × All (FitsSoft chunker n) p'.chunks
RoundDone chunker n p (none, p') = Advanced chunker n p p'

going_on-Ensures :
    (chunker : Chunker) (n : NormalSplit) (p : Progress) (r : Result Progress)
    → Ensures (Advanced chunker n p) r
    → Ensures (RoundDone chunker n p) (going_on r)
going_on-Ensures chunker n p r h = Ensures-bind r _ h λ p' q done. returned (none, p') done

ended-Ensures :
    (chunker : Chunker) (n : NormalSplit) (p : Progress) (found : Option Excerpt)
    → IsSplit chunker n
    → All (FitsSoft chunker n) p.chunks
    → AllOption (FitsSoft chunker n) found
    → Ensures (RoundDone chunker n p) (ended chunker n p found)
unfolding ended
ended-Ensures chunker n p (some pending) s a h = returned (some pending, p) (h, a)
ended-Ensures chunker n p none s a h =
    let soft = chunker.config.soft_max_tokens in
    going_on-Ensures chunker n p _
      (next_window-Ensures chunker n p n.soft_budget soft s (omega arith) a)

round-Ensures :
    (chunker : Chunker) (n : NormalSplit) (p : Progress)
    → IsSplit chunker n
    → All (FitsSoft chunker n) p.chunks
    → Ensures (RoundDone chunker n p) (round chunker n p)
unfolding round
round-Ensures chunker n p s a =
    Ensures-branch _ _ _
      (Ensures-bind (last_piece chunker n p.cursor) _ (last_piece-Ensures chunker n p.cursor)
        λ found q h. ended-Ensures chunker n p found s a h)
      (going_on-Ensures chunker n p _
        (next_window-Ensures chunker n p n.window_budget n.window_limit s s.within a))

-- all pieces fit, the last one too
abbrev pub AllFit : Chunker → Text → List Excerpt × Excerpt → Type 0
AllFit chunker heading_prefix r =
    All (FitsIn chunker heading_prefix chunker.config.soft_max_tokens) r.0
    × FitsIn chunker heading_prefix chunker.config.soft_max_tokens r.1

split_rounds-Ensures :
    (fuel : ℕ) (chunker : Chunker) (n : NormalSplit) (p : Progress)
    → IsSplit chunker n
    → length n.offsets < p.cursor + fuel
    → 0 < fuel
    → All (FitsSoft chunker n) p.chunks
    → Ensures (AllFit chunker n.heading_prefix) (split_rounds fuel chunker n p)
unfolding split_rounds
split_rounds-Ensures zero chunker n p s f l a = absurd (omega arith)
split_rounds-Ensures (suc fuel) chunker n p s f l a =
    Ensures-bind (round chunker n p) _ (round-Ensures chunker n p s a) λ r q h.
      elim r.0
          as (λ o.
            RoundDone chunker n p (o, r.1)
            → Ensures (AllFit chunker n.heading_prefix)
                (elim o as (λ _. Result (List Excerpt × Excerpt)) [
                  | some pending ↦ ok (r.1.chunks, pending)
                  | none ↦ split_rounds fuel chunker n r.1
                ])) [
                  | some pending ↦ λ done. returned (r.1.chunks, pending) (done.1, done.0)
                  | none ↦ λ on.
                      let started = on.started in
                      let grown = on.grown in
                      split_rounds-Ensures fuel chunker n r.1 s (omega arith) (omega arith)
                        on.chunks_fit
                ]
        h

pub window_limit_of-le :
    (l : Limits) (prefix_tokens : ℕ)
    → IsLimits l
    → window_limit_of l prefix_tokens ≤ l.soft_max_tokens
unfolding window_limit_of
window_limit_of-le l prefix_tokens h =
    elim (has_target_window l prefix_tokens)
      as (λ b. (if b then l.target_tokens else l.soft_max_tokens) ≤ l.soft_max_tokens) [
        | true ↦ h.soft_max
        | false ↦ omega arith
      ]

pub split_oversized_normal-Ensures :
    (chunker : Chunker) (x : Excerpt) (heading_prefix : Text)
    → IsLimits chunker.config
    → Ensures (AllFit chunker heading_prefix) (split_oversized_normal chunker x heading_prefix)
unfolding split_oversized_normal
split_oversized_normal-Ensures chunker x heading_prefix l =
    Ensures-bind (token_offsets chunker.counter x.raw_text) _
      (token_offsets-IsOffsets chunker.counter x.raw_text)
      λ offsets q h.
        Ensures-bind (token_count chunker.counter heading_prefix) _
          (token_count-Halts chunker.counter heading_prefix)
          λ prefix_tokens q' h'.
            Ensures-require (ltb 0 (chunker.config.soft_max_tokens - prefix_tokens)) value_error _
              tt
              λ room.
                split_rounds-Ensures (length offsets + 1) chunker _ _
                  (record {
                    begins = token_group_boundaries-BeginsAtZero offsets;
                    within = window_limit_of-le chunker.config prefix_tokens l;
                  })
                  (omega arith) (omega arith) tt
