-- ===== src/Indexing/Chunker/Source/Packing.antt =====
-- Packed blocks that meet give children that are exact slices.
use Prim.Native.Nat.{min}
use mathlib.Core.Path.{subst}
use omf_retrieval.Indexing.Chunker.Excerpt.{
  Excerpt, join_excerpts, physical_line_ends, slice_excerpt,
}
use omf_retrieval.Indexing.Chunker.Groups.{
  ceil_token_group_boundary, token_boundary, token_group_boundaries,
}
use omf_retrieval.Indexing.Chunker.Groups.Laws.{ceil-Ensures, token_boundary-Halts}
use omf_retrieval.Indexing.Chunker.Limits.{IsLimits}
use omf_retrieval.Indexing.Chunker.Normal.{
  add_block, keep_within, overlap_suffix, pack_blocks, split_normal_blocks, split_oversized_normal,
  split_several, suffix_from, window_limit_of,
}
use omf_retrieval.Indexing.Chunker.Normal.Fits.{AllOption}
use omf_retrieval.Indexing.Chunker.Source.{
  At, Chain, IsSource, join-At, slice_excerpt_with_line_ends-At,
}
use omf_retrieval.Indexing.Chunker.Source.Normal.{SplitAt, split_oversized_normal-At}
use omf_retrieval.Indexing.Chunker.Tokens.{Span, token_count, token_offsets}
use omf_retrieval.Indexing.Chunker.Tokens.Laws.{token_count-Halts, token_offsets-IsOffsets}
use omf_retrieval.Indexing.Chunker.Window.{Chunker}
use omf_retrieval.Prelude.{
  All, All-append, List, Option, [], arith, leb, length, ltb, nat_beq, none, refl, some, ℕ, ◌++◌,
  ◌-◌, ◌/◌, ◌∷◌,
}
use omf_retrieval.Prelude.Ensures.{Ensures, Ensures-bind, Ensures-branch, Ensures-imp, returned}
use omf_retrieval.Prelude.Text.{Text}

abbrev pub EndsAt : Text → ℕ → Excerpt → Type 0
EndsAt body j x = (i : ℕ) × At body i j x

slice_excerpt-EndsAt :
    (body : Text) (a b i : ℕ) (x : Excerpt)
    → At body a b x
    → Ensures (EndsAt body b) (slice_excerpt x i (length x.raw_text))
unfolding slice_excerpt
slice_excerpt-EndsAt body a b i x at =
    Ensures-imp (λ y s. (s.0, subst (λ m. At body s.0 m y) (s.3 refl) s.2))
      (slice_excerpt_with_line_ends-At body a b i (length x.raw_text) x
        (physical_line_ends x.raw_text) at (omega arith))

module _ (chunker : Chunker) (body : Text) where
  suffix_from-EndsAt :
      (a b : ℕ) (x : Excerpt) (offsets : List Span) (index : ℕ)
      → At body a b x
      → Ensures (EndsAt body b) (suffix_from x offsets index)
  unfolding suffix_from
  suffix_from-EndsAt a b x offsets index at =
      let boundaries = token_group_boundaries offsets in
      Ensures-bind (ceil_token_group_boundary boundaries index) _ (ceil-Ensures boundaries index)
        λ i q h.
          Ensures-bind (token_boundary offsets i (length x.raw_text)) _
            (token_boundary-Halts offsets i (length x.raw_text))
            λ first q' h'. slice_excerpt-EndsAt body a b first x at

  overlap_suffix-EndsAt :
      (a b : ℕ) (x : Excerpt) → At body a b x → Ensures (EndsAt body b) (overlap_suffix chunker x)
  unfolding overlap_suffix
  overlap_suffix-EndsAt a b x at =
      Ensures-bind (token_offsets chunker.counter x.raw_text) _
        (token_offsets-IsOffsets chunker.counter x.raw_text)
        λ offsets q h.
          let count = min chunker.config.overlap_tokens (length offsets / 2) in
          Ensures-branch (nat_beq count 0) _ _
            (slice_excerpt-EndsAt body a b (length x.raw_text) x at)
            (suffix_from-EndsAt a b x offsets (length offsets - count) at)

  -- what is done is a slice, and what is pending ends at `b`
  add_block-At :
      (heading_prefix : Text) (limit a b : ℕ) (chunks : List Excerpt) (pending : Option Excerpt)
      (block : Excerpt)
      → All (IsSource body) chunks
      → AllOption (EndsAt body a) pending
      → At body a b block
      → Ensures (SplitAt body b) (add_block chunker heading_prefix limit chunks pending block)
  unfolding add_block
  add_block-At heading_prefix limit a b chunks none block c h at =
      returned (chunks, block) (c, (a, at))
  add_block-At heading_prefix limit a b chunks (some pending) block c (i, h) at =
      let joined = join_excerpts pending block in
      let text = heading_prefix ++ joined.raw_text in
      Ensures-bind (token_count chunker.counter text) _ (token_count-Halts chunker.counter text)
        λ count q u.
          Ensures-branch (leb count limit) _ _
            (returned (chunks, joined) (c, (i, join-At body i a b pending block h at)))
            (Ensures-bind (overlap_suffix chunker pending) _ (overlap_suffix-EndsAt i a pending h)
              λ suffix q' (k, s).
                returned (chunks ++ pending ∷ [], join_excerpts suffix block)
                  (
                    All-append (IsSource body) chunks (pending ∷ []) c ((i, a, h), tt),
                    (k, join-At body k a b suffix block s at),
                  ))

  keep_within-At :
      (heading_prefix : Text) (b : ℕ) (chunks : List Excerpt) (pending : Excerpt)
      → IsLimits chunker.config
      → SplitAt body b (chunks, pending)
      → Ensures (SplitAt body b) (keep_within chunker heading_prefix chunks pending)
  unfolding keep_within
  keep_within-At heading_prefix b chunks pending l (c, (i, h)) =
      let text = heading_prefix ++ pending.raw_text in
      Ensures-bind (token_count chunker.counter text) _ (token_count-Halts chunker.counter text)
        λ count q u.
          Ensures-branch (ltb chunker.config.soft_max_tokens count) _ _
            (Ensures-bind (split_oversized_normal chunker pending heading_prefix) _
              (split_oversized_normal-At chunker body i b pending heading_prefix l h)
              λ r q' s.
                returned (chunks ++ r.0, r.1) (All-append (IsSource body) chunks r.0 c s.0, s.1))
            (returned (chunks, pending) (c, (i, h)))

  pack_blocks-IsSource :
      (heading_prefix : Text) (limit a b : ℕ) (chunks : List Excerpt) (pending : Option Excerpt)
      (blocks : List Excerpt)
      → IsLimits chunker.config
      → All (IsSource body) chunks
      → AllOption (EndsAt body a) pending
      → Chain body a blocks b
      → Ensures
          (All (IsSource body))
          (pack_blocks chunker heading_prefix limit chunks pending blocks)
  unfolding pack_blocks
  pack_blocks-IsSource heading_prefix limit a b chunks none [] l c h chain = returned chunks c
  pack_blocks-IsSource heading_prefix limit a b chunks (some pending) [] l c (i, h) chain =
      returned (chunks ++ pending ∷ [])
        (All-append (IsSource body) chunks (pending ∷ []) c ((i, a, h), tt))
  pack_blocks-IsSource heading_prefix limit a b chunks pending (block ∷ blocks) l c h
        (j, at, chain) =
      Ensures-bind (add_block chunker heading_prefix limit chunks pending block) _
        (add_block-At heading_prefix limit a j chunks pending block c h at)
        λ added q s.
          Ensures-bind (keep_within chunker heading_prefix added.0 added.1) _
            (keep_within-At heading_prefix j added.0 added.1 l s)
            λ kept q' s'.
              pack_blocks-IsSource heading_prefix limit j b kept.0 (some kept.1) blocks l s'.0 s'.1
                chain

  split_several-IsSource :
      (a b : ℕ) (blocks : List Excerpt) (heading_prefix : Text)
      → IsLimits chunker.config
      → Chain body a blocks b
      → Ensures (All (IsSource body)) (split_several chunker blocks heading_prefix)
  unfolding split_several
  split_several-IsSource a b blocks heading_prefix l chain =
      Ensures-bind (token_count chunker.counter heading_prefix) _
        (token_count-Halts chunker.counter heading_prefix)
        λ prefix_tokens q u.
          pack_blocks-IsSource heading_prefix (window_limit_of chunker.config prefix_tokens) a b []
            none blocks l tt tt chain

  pub split_normal_blocks-IsSource :
      (a b : ℕ) (blocks : List Excerpt) (heading_prefix : Text)
      → IsLimits chunker.config
      → Chain body a blocks b
      → Ensures (All (IsSource body)) (split_normal_blocks chunker blocks heading_prefix)
  unfolding split_normal_blocks
  split_normal_blocks-IsSource a b (block ∷ []) heading_prefix l (j, at, same) =
      Ensures-bind (split_oversized_normal chunker block heading_prefix) _
        (split_oversized_normal-At chunker body a j block heading_prefix l at)
        λ r q s.
          returned (r.0 ++ r.1 ∷ [])
            (All-append (IsSource body) r.0 (r.1 ∷ []) s.0 ((s.1.0, j, s.1.1), tt))
  split_normal_blocks-IsSource a b [] heading_prefix l chain =
      split_several-IsSource a b [] heading_prefix l chain
  split_normal_blocks-IsSource a b (x ∷ y ∷ blocks) heading_prefix l chain =
      split_several-IsSource a b (x ∷ y ∷ blocks) heading_prefix l chain
