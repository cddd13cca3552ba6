-- ===== src/Indexing/Chunker/Split/Drafts.antt =====
-- What `ParentChildChunker.split` returns.
use omf_retrieval.Indexing.Chunker.Atomic.Fits.{FitsAtomic}
use omf_retrieval.Indexing.Chunker.Excerpt.{Excerpt}
use omf_retrieval.Indexing.Chunker.Limits.{IsLimits}
use omf_retrieval.Indexing.Chunker.Split.{
  draft, drafted, drafts_from, first_line_of, greatest, heading_prefix_of, last_line_of, least,
  section_excerpts, split_drafts_with_excerpts, split_nonblank, whole_section,
}
use omf_retrieval.Indexing.Chunker.Split.Fits.{split_blocks-Ensures}
use omf_retrieval.Indexing.Chunker.Tokens.{token_count}
use omf_retrieval.Indexing.Chunker.Tokens.Laws.{token_count-Halts}
use omf_retrieval.Indexing.Chunker.Window.{Chunker}
use omf_retrieval.Indexing.Ports.{ChunkDraft, check_chunk_draft}
use omf_retrieval.Indexing.Ports.Checks.{check_chunk_draft-Halts}
use omf_retrieval.Indexing.Structure.{ParsedBlock, ParsedSection, first_line, last_line}
use omf_retrieval.Prelude.{
  All, List, [], ap, arith, leb, leb→le, not, ok, ok-injective, refl, sym, value_error, ℕ, ◌++◌,
  ◌+◌, ◌∙◌, ◌∷◌, ◌≡◌, ◌≤◌,
}
use omf_retrieval.Prelude.Ensures.{
  Ensures, Ensures-bind, Ensures-branch, Ensures-if, Ensures-require, Halts, refused, returned,
}
use omf_retrieval.Prelude.Text.{Text, is_blank}

-- a draft of an excerpt: its texts, its tokens and its place
pub record IsDraft (chunker : Chunker) (heading_prefix : Text) (ordinal : ℕ) (x : Excerpt)
    (d : ChunkDraft) : Type 0 where
  pub ordered : d.ordinal ≡ ordinal
  pub raw : d.raw_text ≡ x.raw_text
  pub search : d.search_text ≡ heading_prefix ++ d.raw_text
  pub counted : token_count chunker.counter d.search_text ≡ ok d.token_count
  pub within : d.token_count ≤ chunker.config.atomic_max_tokens
  pub checked : check_chunk_draft d ≡ ok tt

-- drafts of the excerpts, in their order, with ordinals from `ordinal` on
abbrev pub AreDrafts : Chunker → Text → ℕ → List Excerpt → List ChunkDraft → Type 0
AreDrafts chunker heading_prefix ordinal [] [] = Unit
AreDrafts chunker heading_prefix ordinal (x ∷ xs) (d ∷ ds) =
    IsDraft chunker heading_prefix ordinal x d
    × AreDrafts chunker heading_prefix (ordinal + 1) xs ds
AreDrafts chunker heading_prefix ordinal _ _ = ⊥

draft-Ensures :
    (chunker : Chunker) (x : Excerpt) (ordinal : ℕ) (heading_prefix : Text)
    (heading_path : List Text) (parser_version : Text)
    → FitsAtomic chunker heading_prefix x
    → Ensures
        (IsDraft chunker heading_prefix ordinal x)
        (draft chunker x ordinal heading_prefix heading_path parser_version)
unfolding draft drafted
draft-Ensures chunker x ordinal heading_prefix heading_path parser_version h =
    let text = heading_prefix ++ x.raw_text in
    Ensures-bind (token_count chunker.counter text) _ (token_count-Halts chunker.counter text)
      λ count q u.
        let d = drafted chunker x ordinal text count heading_path parser_version in
        Ensures-bind (check_chunk_draft d) _ (check_chunk_draft-Halts d) λ v q' u'.
          let same : h.0 ≡ count = ok-injective (sym h.1 ∙ q) in
          let most = h.2 in
          returned d (record {
            ordered = refl;
            raw = refl;
            search = refl;
            counted = q;
            within = omega arith;
            checked = q';
          })

pub drafts_from-Ensures :
    (chunker : Chunker) (ordinal : ℕ) (heading_prefix : Text) (heading_path : List Text)
    (parser_version : Text) (xs : List Excerpt)
    → All (FitsAtomic chunker heading_prefix) xs
    → Ensures
        (AreDrafts chunker heading_prefix ordinal xs)
        (drafts_from chunker ordinal heading_prefix heading_path parser_version xs)
unfolding drafts_from
drafts_from-Ensures chunker ordinal heading_prefix heading_path parser_version [] a = returned [] tt
drafts_from-Ensures chunker ordinal heading_prefix heading_path parser_version (x ∷ xs) a =
    Ensures-bind (draft chunker x ordinal heading_prefix heading_path parser_version) _
      (draft-Ensures chunker x ordinal heading_prefix heading_path parser_version a.0)
      λ d q h.
        Ensures-bind
          (drafts_from chunker (ordinal + 1) heading_prefix heading_path parser_version xs) _
          (drafts_from-Ensures chunker (ordinal + 1) heading_prefix heading_path parser_version xs
            a.1)
          λ ds q' h'. returned (d ∷ ds) (h, h')

pub first_line_of-Halts : (bs : List ParsedBlock) → Halts (first_line_of bs)
unfolding first_line_of
first_line_of-Halts [] = refused value_error tt
first_line_of-Halts (b ∷ bs) = returned (least (first_line b) bs) tt

pub last_line_of-Halts : (bs : List ParsedBlock) → Halts (last_line_of bs)
unfolding last_line_of
last_line_of-Halts [] = refused value_error tt
last_line_of-Halts (b ∷ bs) = returned (greatest (last_line b) bs) tt

whole_section-Ensures : (s : ParsedSection) → Ensures (λ x. x.raw_text ≡ s.body) (whole_section s)
unfolding whole_section
whole_section-Ensures s =
    Ensures-bind (first_line_of s.blocks) _ (first_line_of-Halts s.blocks) λ i q h.
      Ensures-bind (last_line_of s.blocks) _ (last_line_of-Halts s.blocks)
        λ j q' h'. returned _ refl

pub section_excerpts-Ensures :
    (chunker : Chunker) (s : ParsedSection)
    → IsLimits chunker.config
    → Ensures
        (All (FitsAtomic chunker (heading_prefix_of s.heading_path)))
        (section_excerpts chunker s)
unfolding section_excerpts
section_excerpts-Ensures chunker s l =
    let heading_prefix = heading_prefix_of s.heading_path in
    let soft = chunker.config.soft_max_tokens in
    let text = heading_prefix ++ s.body in
    let below = l.atomic_max in
    Ensures-bind (whole_section s) _ (whole_section-Ensures s) λ whole q body.
      Ensures-bind (token_count chunker.counter text) _ (token_count-Halts chunker.counter text)
        λ count q' h'.
          Ensures-if (leb count soft) _ _
            (λ fits.
              let most = leb→le count soft fits in
              returned (whole ∷ []) (
                (
                  count,
                  ap (λ t. token_count chunker.counter (heading_prefix ++ t)) body ∙ q',
                  omega arith,
                ),
                tt,
              ))
            (λ over. split_blocks-Ensures chunker heading_prefix l s.blocks)

-- Splitting a section ends, and returns one draft for each excerpt, in order and numbered from 0. The
-- raw text of a draft is its excerpt's, its search text is the heading path followed by the raw text,
-- its token count is the tokenizer's count of the search text, and it is at most the atomic limit.
-- The limits are those of a checked configuration.
pub split_drafts_with_excerpts-AreDrafts :
    (chunker : Chunker) (s : ParsedSection) (parser_version : Text)
    → IsLimits chunker.config
    → Ensures
        (λ r. AreDrafts chunker (heading_prefix_of s.heading_path) 0 r.1 r.0)
        (split_drafts_with_excerpts chunker s parser_version)
unfolding split_drafts_with_excerpts split_nonblank
split_drafts_with_excerpts-AreDrafts chunker s parser_version l =
    let heading_prefix = heading_prefix_of s.heading_path in
    Ensures-require (not (is_blank parser_version)) value_error _ tt λ named.
      Ensures-branch (is_blank s.body) _ _ (returned ([], []) tt) (
        Ensures-bind (section_excerpts chunker s) _ (section_excerpts-Ensures chunker s l) λ xs q h.
          Ensures-bind (drafts_from chunker 0 heading_prefix s.heading_path parser_version xs) _
            (drafts_from-Ensures chunker 0 heading_prefix s.heading_path parser_version xs h)
            λ ds q' h'. returned (ds, xs) h')
