-- ===== src/Indexing/Chunker/Normal/Blocks.antt =====
-- Children of ordinary blocks: the packing of several blocks.
use Prim.Native.Nat.{min}
use omf_retrieval.Indexing.Chunker.Excerpt.{Excerpt, join_excerpts}
use omf_retrieval.Indexing.Chunker.Excerpt.Laws.{slice_excerpt-Halts}
use omf_retrieval.Indexing.Chunker.Groups.{
  ceil_token_group_boundary, token_boundary, token_group_boundaries,
}
use omf_retrieval.Indexing.Chunker.Groups.Laws.{ceil-Ensures, token_boundary-Halts}
use omf_retrieval.Indexing.Chunker.Limits.{IsLimits}
use omf_retrieval.Indexing.Chunker.Normal.{
  add_block, keep_within, overlap_suffix, pack_blocks, split_normal_blocks, split_oversized_normal,
  split_several, suffix_from, window_limit_of,
}
use omf_retrieval.Indexing.Chunker.Normal.Fits.{AllOption, FitsIn}
use omf_retrieval.Indexing.Chunker.Normal.Pack.{AllFit, split_oversized_normal-Ensures}
use omf_retrieval.Indexing.Chunker.Tokens.{Span, token_count, token_offsets}
use omf_retrieval.Indexing.Chunker.Tokens.Laws.{token_count-Halts, token_offsets-IsOffsets}
use omf_retrieval.Indexing.Chunker.Window.{Chunker}
use omf_retrieval.Prelude.{
  All, All-append, List, Option, [], arith, leb, length, ltb, nat_beq, none, some, ℕ, ◌++◌, ◌-◌,
  ◌/◌, ◌∷◌,
}
use omf_retrieval.Prelude.Ensures.{
  Ensures, Ensures-bind, Ensures-branch, Ensures-if, Halts, returned,
}
use omf_retrieval.Prelude.Text.{Text}

suffix_from-Halts :
    (x : Excerpt) (offsets : List Span) (index : ℕ) → Halts (suffix_from x offsets index)
unfolding suffix_from
suffix_from-Halts x offsets index =
    let boundaries = token_group_boundaries offsets in
    Ensures-bind (ceil_token_group_boundary boundaries index) _ (ceil-Ensures boundaries index)
      λ i q h.
        Ensures-bind (token_boundary offsets i (length x.raw_text)) _
          (token_boundary-Halts offsets i (length x.raw_text))
          λ first q' h'. slice_excerpt-Halts x first (length x.raw_text)

overlap_suffix-Halts : (chunker : Chunker) (x : Excerpt) → Halts (overlap_suffix chunker x)
unfolding overlap_suffix
overlap_suffix-Halts chunker x =
    Ensures-bind (token_offsets chunker.counter x.raw_text) _
      (token_offsets-IsOffsets chunker.counter x.raw_text)
      λ offsets q h.
        let count = min chunker.config.overlap_tokens (length offsets / 2) in
        Ensures-branch (nat_beq count 0) _ _
          (slice_excerpt-Halts x (length x.raw_text) (length x.raw_text))
          (suffix_from-Halts x offsets (length offsets - count))

-- what holds while blocks are packed: all that is done fits, and so does what is pending
abbrev pub PackedFit : Chunker → Text → List Excerpt × Option Excerpt → Type 0
PackedFit chunker heading_prefix r =
    All (FitsIn chunker heading_prefix chunker.config.soft_max_tokens) r.0
    × AllOption (FitsIn chunker heading_prefix chunker.config.soft_max_tokens) r.1

add_block-Ensures :
    (chunker : Chunker) (heading_prefix : Text) (limit : ℕ) (chunks : List Excerpt)
    (pending : Option Excerpt) (block : Excerpt)
    → PackedFit chunker heading_prefix (chunks, pending)
    → Ensures
        (λ r. All (FitsIn chunker heading_prefix chunker.config.soft_max_tokens) r.0)
        (add_block chunker heading_prefix limit chunks pending block)
unfolding add_block
add_block-Ensures chunker heading_prefix limit chunks none block h = returned (chunks, block) h.0
add_block-Ensures chunker heading_prefix limit chunks (some pending) block h =
    let joined = join_excerpts pending block in
    let text = heading_prefix ++ joined.raw_text in
    Ensures-bind (token_count chunker.counter text) _ (token_count-Halts chunker.counter text)
      λ count q h'. Ensures-branch (leb count limit) _ _ (returned (chunks, joined) h.0) (
        Ensures-bind (overlap_suffix chunker pending) _ (overlap_suffix-Halts chunker pending)
          λ suffix q' h''.
            returned (chunks ++ pending ∷ [], join_excerpts suffix block)
              (All-append (FitsIn chunker heading_prefix chunker.config.soft_max_tokens) chunks
                (pending ∷ []) h.0 (h.1, tt)))

keep_within-Ensures :
    (chunker : Chunker) (heading_prefix : Text) (chunks : List Excerpt) (pending : Excerpt)
    → IsLimits chunker.config
    → All (FitsIn chunker heading_prefix chunker.config.soft_max_tokens) chunks
    → Ensures (AllFit chunker heading_prefix) (keep_within chunker heading_prefix chunks pending)
unfolding keep_within
keep_within-Ensures chunker heading_prefix chunks pending l a =
    let soft = chunker.config.soft_max_tokens in
    let text = heading_prefix ++ pending.raw_text in
    Ensures-bind (token_count chunker.counter text) _ (token_count-Halts chunker.counter text)
      λ count q h.
        Ensures-if (ltb soft count) _ _
          (λ over.
            Ensures-bind (split_oversized_normal chunker pending heading_prefix) _
              (split_oversized_normal-Ensures chunker pending heading_prefix l)
              λ r q' h'.
                returned (chunks ++ r.0, r.1)
                  (All-append (FitsIn chunker heading_prefix soft) chunks r.0 a h'.0, h'.1))
          (λ fits. returned (chunks, pending) (a, (count, q, ground arith)))

pack_blocks-Ensures :
    (chunker : Chunker) (heading_prefix : Text) (limit : ℕ) (chunks : List Excerpt)
    (pending : Option Excerpt) (blocks : List Excerpt)
    → IsLimits chunker.config
    → PackedFit chunker heading_prefix (chunks, pending)
    → Ensures
        (All (FitsIn chunker heading_prefix chunker.config.soft_max_tokens))
        (pack_blocks chunker heading_prefix limit chunks pending blocks)
unfolding pack_blocks
pack_blocks-Ensures chunker heading_prefix limit chunks none [] l h = returned chunks h.0
pack_blocks-Ensures chunker heading_prefix limit chunks (some pending) [] l h =
    returned (chunks ++ pending ∷ []) (
      All-append (FitsIn chunker heading_prefix chunker.config.soft_max_tokens) chunks
        (pending ∷ []) h.0 (h.1, tt))
pack_blocks-Ensures chunker heading_prefix limit chunks pending (block ∷ blocks) l h =
    Ensures-bind (add_block chunker heading_prefix limit chunks pending block) _
      (add_block-Ensures chunker heading_prefix limit chunks pending block h)
      λ added q h'.
        Ensures-bind (keep_within chunker heading_prefix added.0 added.1) _
          (keep_within-Ensures chunker heading_prefix added.0 added.1 l h')
          λ kept q' h''.
            pack_blocks-Ensures chunker heading_prefix limit kept.0 (some kept.1) blocks l h''

split_several-Ensures :
    (chunker : Chunker) (blocks : List Excerpt) (heading_prefix : Text)
    → IsLimits chunker.config
    → Ensures
        (All (FitsIn chunker heading_prefix chunker.config.soft_max_tokens))
        (split_several chunker blocks heading_prefix)
unfolding split_several
split_several-Ensures chunker blocks heading_prefix l =
    Ensures-bind (token_count chunker.counter heading_prefix) _
      (token_count-Halts chunker.counter heading_prefix)
      λ prefix_tokens q h.
        pack_blocks-Ensures chunker heading_prefix (window_limit_of chunker.config prefix_tokens) []
          none blocks l (tt, tt)

-- Every child that is made of ordinary blocks has at most the soft limit of tokens, its heading
-- included, and the loops that make the children end.
pub split_normal_blocks-Ensures :
    (chunker : Chunker) (blocks : List Excerpt) (heading_prefix : Text)
    → IsLimits chunker.config
    → Ensures
        (All (FitsIn chunker heading_prefix chunker.config.soft_max_tokens))
        (split_normal_blocks chunker blocks heading_prefix)
unfolding split_normal_blocks
split_normal_blocks-Ensures chunker (block ∷ []) heading_prefix l =
    Ensures-bind (split_oversized_normal chunker block heading_prefix) _
      (split_oversized_normal-Ensures chunker block heading_prefix l)
      λ r q h. returned (r.0 ++ r.1 ∷ []) (
        All-append (FitsIn chunker heading_prefix chunker.config.soft_max_tokens) r.0 (r.1 ∷ []) h.0
          (h.1, tt))
split_normal_blocks-Ensures chunker [] heading_prefix l =
    split_several-Ensures chunker [] heading_prefix l
split_normal_blocks-Ensures chunker (x ∷ y ∷ blocks) heading_prefix l =
    split_several-Ensures chunker (x ∷ y ∷ blocks) heading_prefix l
