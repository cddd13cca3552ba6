-- ===== src/Indexing/Chunker/Split/Short.antt =====
-- A section that fits the soft limit is one chunk of `ParentChildChunker.split`.
use Prim.Native.Nat.{max, min}
use mathlib.Core.Path.{subst}
use omf_retrieval.Indexing.Chunker.Excerpt.{Excerpt}
use omf_retrieval.Indexing.Chunker.Source.Section.{blocks_text}
use omf_retrieval.Indexing.Chunker.Split.{
  draft, drafted, drafts_from, first_line_of, greatest, heading_prefix_of, last_line_of, least,
  section_excerpts, split, split_drafts_with_excerpts, split_nonblank, whole_section,
}
use omf_retrieval.Indexing.Chunker.Tokens.{token_count}
use omf_retrieval.Indexing.Chunker.Window.{Chunker}
use omf_retrieval.Indexing.Ports.{ChunkDraft, check_chunk_draft}
use omf_retrieval.Indexing.Structure.{ParsedBlock, ParsedSection, first_line, last_line}
use omf_retrieval.Prelude.{
  &&-intro, All, List, [], ap, arith, bind_eq, false, if_false, if_true, leb, length, le→leb, not,
  ok, refl, require, require_eq, some, sym, true, true-ne-false, value_error, ℕ, ◌&&◌, ◌++◌, ◌∙◌,
  ◌∷◌, ◌≡◌, ◌≢◌, ◌≤◌,
}
use omf_retrieval.Prelude.Text.{Text, is_blank, is_empty, is_hex_of, lstrip, strip}

-- a block of a parsed section has a line at least, counted from 1
abbrev pub HasLines : ParsedBlock → Type 0
HasLines b = (1 ≤ first_line b) × (first_line b ≤ last_line b)

abbrev pub HoldsLines : ℕ → ℕ → ParsedBlock → Type 0
HoldsLines i j b = (i ≤ first_line b) × (last_line b ≤ j)

least-le : (n : ℕ) (bs : List ParsedBlock) → least n bs ≤ n
unfolding least
least-le n [] = omega arith
least-le n (b ∷ bs) = omega (arith, least-le (min n (first_line b)) bs)

greatest-ge : (n : ℕ) (bs : List ParsedBlock) → n ≤ greatest n bs
unfolding greatest
greatest-ge n [] = omega arith
greatest-ge n (b ∷ bs) = omega (arith, greatest-ge (max n (last_line b)) bs)

least-pos : (n : ℕ) (bs : List ParsedBlock) → 1 ≤ n → All HasLines bs → 1 ≤ least n bs
unfolding least
least-pos n [] h each = h
least-pos n (b ∷ bs) h each = least-pos (min n (first_line b)) bs (omega (arith, each.0.0)) each.1

blocks_covered :
    (i j : ℕ) (bs : List ParsedBlock) → All (HoldsLines (least i bs) (greatest j bs)) bs
unfolding least greatest
blocks_covered i j [] = tt
blocks_covered i j (b ∷ bs) =
    let low = least-le (min i (first_line b)) bs in
    let high = greatest-ge (max j (last_line b)) bs in
    ((omega arith, omega arith), blocks_covered (min i (first_line b)) (max j (last_line b)) bs)

-- the section's one excerpt, from its first line to its last
WholeSection : ParsedSection → Excerpt → Type 0
WholeSection s x =
    (x.raw_text ≡ s.body)
    × (((1 ≤ x.line_start) × (x.line_start ≤ x.line_end))
        × All (HoldsLines x.line_start x.line_end) s.blocks)

some_blocks :
    (bs : List ParsedBlock)
    → bs ≢ []
    → (b : ParsedBlock) × ((cs : List ParsedBlock) × (bs ≡ b ∷ cs))
some_blocks [] h = absurd (h refl)
some_blocks (b ∷ bs) h = (b, (bs, refl))

whole_section_returns :
    (s : ParsedSection)
    → All HasLines s.blocks
    → s.blocks ≢ []
    → (x : Excerpt) × ((whole_section s ≡ ok x) × WholeSection s x)
unfolding whole_section first_line_of last_line_of WholeSection
whole_section_returns s h k =
    let (b, (bs, e)) = some_blocks s.blocks k in
    let h' = subst (All HasLines) e h in
    let i = least (first_line b) bs in
    let j = greatest (last_line b) bs in
    let low = least-le (first_line b) bs in
    let high = greatest-ge (last_line b) bs in
    let first : first_line_of s.blocks ≡ ok i = ap first_line_of e in
    let last : last_line_of s.blocks ≡ ok j = ap last_line_of e in
    let whole : Excerpt = record {
      raw_text = s.body;
      line_start = i;
      line_end = j;
      warnings = [];
      line_numbers = [];
      source_start = some 0;
      source_end = some (length s.body);
    } in
    (
      whole,
      (
        rw (first, last) refl,
        (
          refl,
          (
            (least-pos (first_line b) bs h'.0.0 h'.1, omega (arith, h'.0.1)),
            subst (All (HoldsLines i j)) (sym e)
                ((low, high), blocks_covered (first_line b) (last_line b) bs),
          ),
        ),
      ),
    )

some_text :
    (s : ParsedSection) → is_blank s.body ≡ false → blocks_text s.blocks ≡ s.body → s.blocks ≢ []
unfolding blocks_text is_blank strip lstrip
some_text s body text none_left =
    let empty : s.body ≡ [] = sym text ∙ ap blocks_text none_left in
    true-ne-false (sym (ap is_blank empty) ∙ body)

nonblank-nonempty : (t : Text) → is_blank t ≡ false → is_empty t ≡ false
unfolding is_blank strip lstrip
nonblank-nonempty [] h = absurd (true-ne-false h)
nonblank-nonempty (c ∷ t) h = refl

prefixed-nonempty : (p t : Text) → is_empty t ≡ false → is_empty (p ++ t) ≡ false
prefixed-nonempty [] t h = h
prefixed-nonempty (c ∷ p) t h = refl

-- the hash of a chunk is 64 hexadecimal digits
abbrev pub Hashes : Chunker → Type 0
Hashes chunker =
    (version config_hash : Text) (path : List Text) (i j : ℕ) (raw search : Text)
    → is_hex_of 64 (chunker.chunk_hash version config_hash path i j raw search) ≡ true

module _ (chunker : Chunker) (heading_prefix : Text) (path : List Text) (version : Text) where
  draft_returns :
      (x : Excerpt) (ordinal count : ℕ)
      → Hashes chunker
      → is_empty x.raw_text ≡ false
      → token_count chunker.counter (heading_prefix ++ x.raw_text) ≡ ok count
      → 1 ≤ count
      → 1 ≤ x.line_start
      → x.line_start ≤ x.line_end
      → draft chunker x ordinal heading_prefix path version
        ≡ ok (drafted chunker x ordinal (heading_prefix ++ x.raw_text) count path version)
  unfolding draft drafted
  draft_returns x ordinal count hash filled counted positive first last =
      let text = heading_prefix ++ x.raw_text in
      let d = drafted chunker x ordinal text count path version in
      let range =
        &&-intro _ _ (le→leb 1 x.line_start first) (le→leb x.line_start x.line_end last) in
      let checked : check_chunk_draft d ≡ ok tt =
        require_eq (not (is_empty x.raw_text)) value_error (ap not filled) (
          require_eq (not (is_empty text)) value_error
            (ap not (prefixed-nonempty heading_prefix x.raw_text filled))
            (require_eq (leb 1 count) value_error (le→leb 1 count positive) (
              require_eq (leb 1 x.line_start && leb x.line_start x.line_end) value_error range (
                ap (λ b. require b value_error)
                  (hash version chunker.config_hash path x.line_start x.line_end x.raw_text
                    text))))) in
      bind_eq (token_count chunker.counter text) _ count counted
        (bind_eq (check_chunk_draft d) _ tt checked refl)

-- A section that is not blank, whose blocks have lines and make up its body, and whose body behind
-- the heading path has at least one token and no more than the soft limit, is split into one draft:
-- its raw text is the body, its search text has the heading path before it, its count is the
-- tokenizer's, and its lines cover every block. The parser's version is not blank, and the hash of a
-- chunk is 64 hexadecimal digits, as that of SHA-256 is.
pub split_short :
    (chunker : Chunker) (s : ParsedSection) (parser_version : Text) (count : ℕ)
    → Hashes chunker
    → is_blank parser_version ≡ false
    → is_blank s.body ≡ false
    → blocks_text s.blocks ≡ s.body
    → All HasLines s.blocks
    → token_count chunker.counter (heading_prefix_of s.heading_path ++ s.body) ≡ ok count
    → 1 ≤ count
    → count ≤ chunker.config.soft_max_tokens
    → (d : ChunkDraft) × ((split chunker s parser_version ≡ ok (d ∷ []))
        × ((d.raw_text ≡ s.body)
            × ((d.search_text ≡ heading_prefix_of s.heading_path ++ s.body)
                × ((d.token_count ≡ count) × All (HoldsLines d.line_start d.line_end) s.blocks))))
unfolding split split_drafts_with_excerpts split_nonblank section_excerpts drafts_from drafted
    WholeSection
split_short chunker s version count hash named body text lines e positive fits =
    let (whole, (returns, (raw, (range, covers)))) =
      whole_section_returns s lines (some_text s body text) in
    let heading_prefix = heading_prefix_of s.heading_path in
    let soft = chunker.config.soft_max_tokens in
    let counted = ap (λ t. token_count chunker.counter (heading_prefix ++ t)) raw ∙ e in
    let filled = ap is_empty raw ∙ nonblank-nonempty s.body body in
    let d =
      drafted chunker whole 0 (heading_prefix ++ whole.raw_text) count s.heading_path version in
    let drawn =
      draft_returns chunker heading_prefix s.heading_path version whole 0 count hash filled counted
        positive range.0 range.1 in
    let excerpts : section_excerpts chunker s ≡ ok (whole ∷ []) =
      bind_eq (whole_section s) _ whole returns (
        bind_eq (token_count chunker.counter (heading_prefix ++ s.body)) _ count e
          (if_true (leb count soft) _ _ (le→leb count soft fits) refl)) in
    let drafts : drafts_from chunker 0 heading_prefix s.heading_path version (whole ∷ [])
        ≡ ok (d ∷ []) =
      bind_eq (draft chunker whole 0 heading_prefix s.heading_path version) _ d drawn refl in
    let pieces : split_nonblank chunker s version ≡ ok (d ∷ [], whole ∷ []) =
      bind_eq (section_excerpts chunker s) _ (whole ∷ []) excerpts (
        bind_eq (drafts_from chunker 0 heading_prefix s.heading_path version (whole ∷ [])) _
          (d ∷ []) drafts refl) in
    let all_of_it : split_drafts_with_excerpts chunker s version ≡ ok (d ∷ [], whole ∷ []) =
      require_eq (not (is_blank version)) value_error (ap not named)
        (if_false (is_blank s.body) _ _ body pieces) in
    (
      d,
      (
        bind_eq (split_drafts_with_excerpts chunker s version) _ (d ∷ [], whole ∷ []) all_of_it
            refl,
        (raw, (ap (λ t. heading_prefix ++ t) raw, (refl, covers))),
      ),
    )
