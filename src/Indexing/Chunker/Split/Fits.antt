-- ===== src/Indexing/Chunker/Split/Fits.antt =====
-- The drafts of a section: their sizes, their texts and their order.
use omf_retrieval.Indexing.Chunker.Atomic.{split_atomic_block}
use omf_retrieval.Indexing.Chunker.Atomic.Fits.{FitsAtomic}
use omf_retrieval.Indexing.Chunker.Atomic.Pack.{split_atomic_block-Ensures}
use omf_retrieval.Indexing.Chunker.Excerpt.{Excerpt}
use omf_retrieval.Indexing.Chunker.Limits.{IsLimits}
use omf_retrieval.Indexing.Chunker.Normal.{split_normal_blocks, window_limit_of}
use omf_retrieval.Indexing.Chunker.Normal.Blocks.{split_normal_blocks-Ensures}
use omf_retrieval.Indexing.Chunker.Normal.Fits.{FitsIn}
use omf_retrieval.Indexing.Chunker.Split.{
  Packing, flush_normal, is_atomic_kind, joined_raw, known_limit, no_packing, pack_all, pack_atomic,
  pack_blank, pack_block, pack_normal, place_separators, split_blocks, split_off,
}
use omf_retrieval.Indexing.Chunker.Tokens.{token_count}
use omf_retrieval.Indexing.Chunker.Tokens.Laws.{token_count-Halts}
use omf_retrieval.Indexing.Chunker.Units.{block_excerpt}
use omf_retrieval.Indexing.Chunker.Window.{Chunker}
use omf_retrieval.Indexing.Structure.{ParsedBlock, block_text, kind_of}
use omf_retrieval.Prelude.{
  All, All-append, All-imp, List, Option, [], arith, false, if◌then◌else◌, length, ltb, none, ok,
  some, true, ℕ, ◌++◌, ◌+◌, ◌∷◌,
}
use omf_retrieval.Prelude.Ensures.{Ensures, Ensures-bind, Ensures-branch, Halts, returned}
use omf_retrieval.Prelude.Text.{Text, is_blank, is_empty}

Soft-FitsAtomic :
    (chunker : Chunker) (heading_prefix : Text)
    → IsLimits chunker.config
    → (xs : List Excerpt) → All (FitsIn chunker heading_prefix chunker.config.soft_max_tokens) xs
    → All (FitsAtomic chunker heading_prefix) xs
Soft-FitsAtomic chunker heading_prefix l =
    let below = l.atomic_max in All-imp _ _ (λ x h. (h.0, h.1, omega (arith, h.2)))

-- all chunks that are done fit
abbrev ChunksFit : Chunker → Text → Packing → Type 0
ChunksFit chunker heading_prefix p = All (FitsAtomic chunker heading_prefix) p.chunks

module _ (chunker : Chunker) (heading_prefix : Text) (l : IsLimits chunker.config) where
  split_off-Ensures :
      (p : Packing)
      → ChunksFit chunker heading_prefix p
      → Ensures (ChunksFit chunker heading_prefix) (split_off chunker heading_prefix p)
  unfolding split_off
  split_off-Ensures p a =
      Ensures-bind (split_normal_blocks chunker p.normal_blocks heading_prefix) _
        (split_normal_blocks-Ensures chunker p.normal_blocks heading_prefix l)
        λ done q h.
          returned (record p { chunks = p.chunks ++ done; normal_blocks = [] })
            (All-append (FitsAtomic chunker heading_prefix) p.chunks done a
              (Soft-FitsAtomic chunker heading_prefix l done h))

  flush_normal-Ensures :
      (p : Packing)
      → ChunksFit chunker heading_prefix p
      → Ensures (ChunksFit chunker heading_prefix) (flush_normal chunker heading_prefix p)
  unfolding flush_normal
  flush_normal-Ensures p a =
      Ensures-branch (is_empty p.normal_blocks) _ _ (returned p a) (split_off-Ensures p a)

  pub known_limit-Halts : (limit : Option ℕ) → Halts (known_limit chunker heading_prefix limit)
  unfolding known_limit
  known_limit-Halts (some limit) = returned limit tt
  known_limit-Halts none =
      Ensures-bind (token_count chunker.counter heading_prefix) _
        (token_count-Halts chunker.counter heading_prefix)
        λ prefix_tokens q h. returned (window_limit_of chunker.config prefix_tokens) tt

  place_separators-Ensures :
      (p : Packing) (block : Excerpt)
      → ChunksFit chunker heading_prefix p
      → Ensures (ChunksFit chunker heading_prefix) (place_separators chunker heading_prefix p block)
  unfolding place_separators
  place_separators-Ensures p block a =
      let text =
        heading_prefix ++ joined_raw (p.normal_blocks ++ p.separator_blocks ++ block ∷ []) in
      Ensures-bind (known_limit chunker heading_prefix p.window_limit) _
        (known_limit-Halts p.window_limit)
        λ limit q h.
          Ensures-bind (token_count chunker.counter text) _ (token_count-Halts chunker.counter text)
            λ count q' h'.
              Ensures-branch (ltb limit count) _ _
                (split_off-Ensures (record p { window_limit = some limit }) a)
                (returned
                  (record p {
                    window_limit = some limit;
                    normal_blocks = p.normal_blocks ++ p.separator_blocks;
                  })
                  a)

  pack_normal-Ensures :
      (p : Packing) (block : Excerpt)
      → ChunksFit chunker heading_prefix p
      → Ensures (ChunksFit chunker heading_prefix) (pack_normal chunker heading_prefix p block)
  unfolding pack_normal
  pack_normal-Ensures p block a =
      Ensures-bind
        (if is_empty p.separator_blocks
          then ok p
          else place_separators chunker heading_prefix p block)
        _
        (Ensures-branch (is_empty p.separator_blocks) _ _ (returned p a)
          (place_separators-Ensures p block a))
        λ q e h.
          returned
            (record q { separator_blocks = []; normal_blocks = q.normal_blocks ++ block ∷ [] }) h

  pack_atomic-Ensures :
      (p : Packing) (b : ParsedBlock) (source_start : ℕ)
      → ChunksFit chunker heading_prefix p
      → Ensures
          (ChunksFit chunker heading_prefix)
          (pack_atomic chunker heading_prefix p b source_start)
  unfolding pack_atomic
  pack_atomic-Ensures p b source_start a =
      Ensures-bind (flush_normal chunker heading_prefix (record p { separator_blocks = [] })) _
        (flush_normal-Ensures (record p { separator_blocks = [] }) a)
        λ q e h.
          Ensures-bind (split_atomic_block chunker b heading_prefix (some source_start)) _
            (split_atomic_block-Ensures chunker b heading_prefix (some source_start))
            λ done e' h'.
              returned (record q { chunks = q.chunks ++ done })
                (All-append (FitsAtomic chunker heading_prefix) q.chunks done h h')

  blank-ChunksFit :
      (p : Packing) (block : Excerpt)
      → ChunksFit chunker heading_prefix p
      → ChunksFit chunker heading_prefix (pack_blank p block)
  unfolding pack_blank
  blank-ChunksFit p block a =
      elim (is_empty p.normal_blocks)
        as (λ b.
          ChunksFit chunker heading_prefix
            (if b then p else record p { separator_blocks = p.separator_blocks ++ block ∷ [] })) [
              | true ↦ a
              | false ↦ a
            ]

  pack_block-Ensures :
      (p : Packing) (b : ParsedBlock)
      → ChunksFit chunker heading_prefix p
      → Ensures (ChunksFit chunker heading_prefix) (pack_block chunker heading_prefix p b)
  unfolding pack_block
  pack_block-Ensures p b a =
      let block = block_excerpt b (some p.source_cursor) in
      let p' = record p { source_cursor = p.source_cursor + length (block_text b) } in
      Ensures-branch (is_blank (block_text b)) _ _
        (returned (pack_blank p' block) (blank-ChunksFit p' block a))
        (Ensures-branch (is_atomic_kind (kind_of b)) _ _
          (pack_atomic-Ensures p' b p.source_cursor a) (pack_normal-Ensures p' block a))

  pack_all-Ensures :
      (p : Packing) (bs : List ParsedBlock)
      → ChunksFit chunker heading_prefix p
      → Ensures (ChunksFit chunker heading_prefix) (pack_all chunker heading_prefix p bs)
  unfolding pack_all
  pack_all-Ensures p [] a = returned p a
  pack_all-Ensures p (b ∷ bs) a =
      Ensures-bind (pack_block chunker heading_prefix p b) _ (pack_block-Ensures p b a)
        λ q e h. pack_all-Ensures q bs h

  pub split_blocks-Ensures :
      (blocks : List ParsedBlock)
      → Ensures
          (All (FitsAtomic chunker heading_prefix))
          (split_blocks chunker blocks heading_prefix)
  unfolding split_blocks
  split_blocks-Ensures blocks =
      Ensures-bind (pack_all chunker heading_prefix no_packing blocks) _
        (pack_all-Ensures no_packing blocks tt)
        λ p e h.
          Ensures-bind (flush_normal chunker heading_prefix p) _ (flush_normal-Ensures p h)
            λ q e' h'. returned q.chunks h'
