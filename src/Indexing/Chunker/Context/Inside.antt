-- ===== src/Indexing/Chunker/Context/Inside.antt =====
-- `_select_blocks` of infrastructure/source/chunker.py: what is selected is a part of the body, holds
-- the match and is within the limit.
use omf_retrieval.Indexing.Chunker.Context.Chosen.{FitsLimit, expand_seed-IsChosen}
use omf_retrieval.Indexing.Chunker.Context.Cover.{
  IsBody, IsExcerpt, block_at-Ensures, excerpt-Infix, excerpt_of-IsExcerpt, seed-Ends, window-Infix,
}
use omf_retrieval.Indexing.Chunker.Context.Parts.{block_at}
use omf_retrieval.Indexing.Chunker.Context.Place.{place_in_block-IsPlace}
use omf_retrieval.Indexing.Chunker.Context.Seeds.{IsSeedOf, seed_of-IsSeedOf}
use omf_retrieval.Indexing.Chunker.Context.Select.{
  Match, Selection, excerpt_of, expand_seed, place_in_block, seed_of, select_blocks,
  select_in_block,
}
use omf_retrieval.Indexing.Chunker.Context.Widest.{oversized_block_excerpt-IsPart}
use omf_retrieval.Indexing.Chunker.Excerpt.{Excerpt, total_length}
use omf_retrieval.Indexing.Chunker.Tokens.{TokenCounter, token_count}
use omf_retrieval.Indexing.Chunker.Tokens.Laws.{token_count-Halts}
use omf_retrieval.Indexing.Markdown.Blocks.{lines_text}
use omf_retrieval.Indexing.Ports.Lines.{joined}
use omf_retrieval.Indexing.Structure.{ParsedBlock, first_line, last_line}
use omf_retrieval.Prelude.{
  List, arith, get_elem?, length, ltb, nat_beq, ok, some, some_injective, sym, take, value_error, ℕ,
  ◌+◌, ◌-◌, ◌∙◌, ◌≡◌, ◌≤◌,
}
use omf_retrieval.Prelude.Ensures.{
  Ensures, Ensures-at, Ensures-bind, Ensures-if, Ensures-imp, Ensures-require,
}
use omf_retrieval.Prelude.Infix.{Infix, Infix-trans, slice-Infix, slice-slice_Infix}
use omf_retrieval.Prelude.Text.{Text}

-- a part of a text, around a part of its own, within the limit
pub record IsInside (counter : TokenCounter) (limit : ℕ) (text matched : Text) (part : Text)
    : Type 0 where
  pub inside : Infix part text
  pub holds : Infix matched part
  pub fits : FitsLimit counter limit part

-- the match stands in its lines, where the blocks of the body meet
pub record IsMatch (source_lines : List Text) (blocks : List ParsedBlock) (m : Match) : Type 0 where
  pub body : IsBody source_lines blocks m
  pub found : Infix m.raw_text (lines_text source_lines (m.line_start - 1) m.line_end)

module _ (s : Selection) (m : Match) where
  abbrev Wanted : Excerpt → Type 0
  Wanted x = IsInside s.counter s.limit (joined s.source_lines) m.raw_text x.raw_text

  -- a window around the blocks of the match
  expand_seed-Wanted :
      (x : Excerpt)
      → IsMatch s.source_lines s.blocks m
      → IsSeedOf s.blocks m s.seed
      → excerpt_of s (s.seed.first, s.seed.last) ≡ ok x
      → FitsLimit s.counter s.limit x.raw_text
      → Ensures Wanted (expand_seed s x)
  expand_seed-Wanted x is of made fits =
      Ensures-imp
        (λ y (w, chosen).
          let shown = Ensures-at (excerpt_of-IsExcerpt s w) chosen.made in
          record {
            inside = excerpt-Infix s.source_lines s.blocks w y shown;
            holds =
                Infix-trans m.raw_text _ y.raw_text is.found
                  (window-Infix s m w y is.body of chosen.around shown);
            fits = chosen.fits;
          })
        (expand_seed-IsChosen s x of.window made fits)

  -- a part of the block of the match
  select_in_block-Wanted :
      (first : ParsedBlock) (x : Excerpt)
      → IsMatch s.source_lines s.blocks m
      → IsSeedOf s.blocks m s.seed
      → get_elem? s.blocks s.seed.first ≡ some first
      → IsExcerpt s.source_lines s.blocks (s.seed.first, s.seed.last) x
      → Ensures Wanted (select_in_block s m first x)
  unfolding select_in_block
  select_in_block-Wanted first x is of at made =
      let ends = seed-Ends s.source_lines s.blocks m s.seed is.body of in
      let same_first : ends.first ≡ first = some_injective (sym ends.at_first ∙ at) in
      let same_first' : made.first ≡ first = some_injective (sym made.at_first ∙ at) in
      let same_last : ends.last ≡ made.last = some_injective (sym ends.at_last ∙ made.at_last) in
      let low : first_line first ≤ m.line_start = rw (← same_first) ends.low in
      let high : m.line_end ≤ last_line made.last = rw (← same_last) ends.high in
      let text : x.raw_text
          ≡ lines_text s.source_lines (first_line first - 1) (last_line made.last) =
        rw (← same_first') made.text in
      Ensures-require (nat_beq s.seed.first s.seed.last) value_error _ tt λ one.
        Ensures-bind
          (place_in_block s.source_lines m x
            (total_length (take (first_line first - 1) s.source_lines)))
          _
          (place_in_block-IsPlace s.source_lines m x (first_line first) (last_line made.last) low
            is.body.ordered high text)
          λ p q place.
            Ensures-imp
              (λ y part. record {
                inside =
                    Infix-trans y.raw_text x.raw_text _
                      (rw part.cut (slice-Infix x.raw_text part.w.0 part.w.1))
                      (excerpt-Infix s.source_lines s.blocks (s.seed.first, s.seed.last) x made);
                holds =
                    rw (part.cut, ← place.1)
                      (slice-slice_Infix x.raw_text part.w.0 p (p + length m.raw_text) part.w.1
                        part.holds.0 (omega arith) part.holds.1.0);
                fits = part.fits;
              })
              (oversized_block_excerpt-IsPart s.counter s.limit x p (p + length m.raw_text) place.0)

pub select_blocks-IsInside :
    (counter : TokenCounter) (limit : ℕ) (blocks : List ParsedBlock) (source_lines : List Text)
    (body_line_start : ℕ) (m : Match)
    → IsMatch source_lines blocks m
    → Ensures
        (λ x. IsInside counter limit (joined source_lines) m.raw_text x.raw_text)
        (select_blocks counter limit blocks source_lines body_line_start m)
unfolding select_blocks
select_blocks-IsInside counter limit blocks source_lines body_line_start m is =
    Ensures-bind (seed_of blocks m) _ (seed_of-IsSeedOf blocks m) λ seed q of.
      let s : Selection = record {
        counter = counter;
        limit = limit;
        source_lines = source_lines;
        body_line_start = body_line_start;
        blocks = blocks;
        seed = seed;
      } in
      Ensures-bind (block_at blocks seed.first) _ (block_at-Ensures blocks seed.first)
        λ first q' at.
          Ensures-bind (excerpt_of s (seed.first, seed.last)) _
            (excerpt_of-IsExcerpt s (seed.first, seed.last))
            λ x made shown.
              Ensures-bind (token_count counter x.raw_text) _ (token_count-Halts counter x.raw_text)
                λ count counted u.
                  Ensures-if (ltb limit count) _ _
                    (λ over. select_in_block-Wanted s m first x is of at shown)
                    (λ fits.
                      expand_seed-Wanted s m x is of made (count, (counted, ground (arith, fits))))
