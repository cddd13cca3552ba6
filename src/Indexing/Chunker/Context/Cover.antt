-- ===== src/Indexing/Chunker/Context/Cover.antt =====
-- The windows that infrastructure/source/chunker.py selects are parts of the body and hold the lines
-- of the match.
use omf_retrieval.Indexing.Chunker.Context.{Seed, Window}
use omf_retrieval.Indexing.Chunker.Context.Grow.{Around}
use omf_retrieval.Indexing.Chunker.Context.Meet.{first_seed, last_seed, lines_mono, seeds}
use omf_retrieval.Indexing.Chunker.Context.Parts.{
  block_at, blocks_meet, relative_line_excerpt, window_excerpt,
}
use omf_retrieval.Indexing.Chunker.Context.Seeds.{IsSeedOf, head_or}
use omf_retrieval.Indexing.Chunker.Context.Select.{Match, Selection, excerpt_of, last_index}
use omf_retrieval.Indexing.Chunker.Excerpt.{Excerpt}
use omf_retrieval.Indexing.Chunker.Split.Short.{HasLines}
use omf_retrieval.Indexing.Markdown.Blocks.{lines_text}
use omf_retrieval.Indexing.Markdown.Coverage.{joined-append, lines_text-append}
use omf_retrieval.Indexing.Ports.Lines.{joined}
use omf_retrieval.Indexing.Structure.{ParsedBlock, first_line, last_line}
use omf_retrieval.Prelude.{
  All, List, Option-cases, ap, arith, get_elem?, index_error, inl, inr, length, refl, some, sym,
  true, ℕ, ◌++◌, ◌+◌, ◌-◌, ◌∙◌, ◌≡◌, ◌≤◌,
}
use omf_retrieval.Prelude.Ensures.{Ensures, Ensures-bind, refused, returned}
use omf_retrieval.Prelude.Infix.{Infix, slice-Infix}
use omf_retrieval.Prelude.Slices.{slice}
use omf_retrieval.Prelude.Text.{Text}

pub lines_text-Infix_joined :
    (source_lines : List Text) (i j : ℕ) → Infix (lines_text source_lines i j) (joined source_lines)
unfolding lines_text
lines_text-Infix_joined source_lines i j =
    let (before, (after, e)) = slice-Infix source_lines i j in
    (
      joined before,
      (
        joined after,
        ap joined e
            ∙ joined-append before (slice source_lines i j ++ after)
            ∙ ap (λ l. joined before ++ l) (joined-append (slice source_lines i j) after),
      ),
    )

lines_text-Infix :
    (source_lines : List Text) (a i j z : ℕ)
    → a ≤ i
    → i ≤ j
    → j ≤ z
    → Infix (lines_text source_lines i j) (lines_text source_lines a z)
lines_text-Infix source_lines a i j z h h' h'' = (
  lines_text source_lines a i,
  (
    lines_text source_lines j z,
    sym (
        ap (λ l. lines_text source_lines a i ++ l) (lines_text-append source_lines i j z h' h'')
        ∙ lines_text-append source_lines a i z h (omega arith)),
  ),
)

-- the blocks of a body that meet, and the lines of a match in it
pub record IsBody (source_lines : List Text) (blocks : List ParsedBlock) (m : Match) : Type 0 where
  pub meets : blocks_meet source_lines 1 blocks ≡ true
  pub each : All HasLines blocks
  pub counted : 1 ≤ m.line_start
  pub ordered : m.line_start ≤ m.line_end
  pub inside : m.line_end ≤ length source_lines

-- the excerpt of a window, by its first block and its last one
pub record IsExcerpt (source_lines : List Text) (blocks : List ParsedBlock) (w : Window)
    (x : Excerpt) : Type 0 where
  pub first : ParsedBlock
  pub last : ParsedBlock
  pub at_first : get_elem? blocks w.0 ≡ some first
  pub at_last : get_elem? blocks w.1 ≡ some last
  pub text : x.raw_text ≡ lines_text source_lines (first_line first - 1) (last_line last)

pub block_at-Ensures :
    (blocks : List ParsedBlock) (i : ℕ)
    → Ensures (λ b. get_elem? blocks i ≡ some b) (block_at blocks i)
unfolding block_at
block_at-Ensures blocks i = elim (Option-cases (get_elem? blocks i)) [
  | inl e ↦ rw (e, block_at) (refused index_error tt)
  | inr (b, e) ↦ rw (e, block_at) (returned b refl)
]

pub excerpt_of-IsExcerpt :
    (s : Selection) (w : Window) → Ensures (IsExcerpt s.source_lines s.blocks w) (excerpt_of s w)
unfolding excerpt_of window_excerpt relative_line_excerpt
excerpt_of-IsExcerpt s (left, right) =
    Ensures-bind (block_at s.blocks left) _ (block_at-Ensures s.blocks left) λ first q h.
      Ensures-bind (block_at s.blocks right) _ (block_at-Ensures s.blocks right) λ last q' h'.
        returned _ (record { first = first; last = last; at_first = h; at_last = h'; text = refl })

-- the blocks at the ends of the seed are around the lines of the match
pub record Ends (blocks : List ParsedBlock) (m : Match) (seed : Seed) : Type 0 where
  pub first : ParsedBlock
  pub last : ParsedBlock
  pub at_first : get_elem? blocks seed.first ≡ some first
  pub at_last : get_elem? blocks seed.last ≡ some last
  pub low : first_line first ≤ m.line_start
  pub high : m.line_end ≤ last_line last

pub seed-Ends :
    (source_lines : List Text) (blocks : List ParsedBlock) (m : Match) (seed : Seed)
    → IsBody source_lines blocks m
    → IsSeedOf blocks m seed
    → Ends blocks m seed
unfolding seeds head_or
seed-Ends source_lines blocks m seed body of =
    let (k, (l, (b, (found, (at, low))))) =
      first_seed source_lines m.line_start m.line_end 1 blocks body.meets body.each body.counted
        body.ordered (omega (arith, body.ordered, body.inside)) 0 in
    let (k', (c, (found', (at', high)))) =
      last_seed source_lines m.line_start m.line_end 1 blocks body.meets body.each
        (omega (arith, body.counted, body.ordered)) body.ordered body.inside 0 seed.first in
    let head : seed.first ≡ 0 + k = ap (head_or 0) (sym of.found ∙ found) in
    let head' : seed.first ≡ k = omega (arith, head) in
    let end : seed.last ≡ 0 + k' = of.ends ∙ sym (ap (last_index seed.first) of.found) ∙ found' in
    let end' : seed.last ≡ k' = omega (arith, end) in
    record {
      first = b;
      last = c;
      at_first = rw head' at;
      at_last = rw end' at';
      low = low;
      high = high;
    }

pub window-Infix :
    (s : Selection) (m : Match) (w : Window) (x : Excerpt)
    → IsBody s.source_lines s.blocks m
    → IsSeedOf s.blocks m s.seed
    → Around s.seed w
    → IsExcerpt s.source_lines s.blocks w x
    → Infix (lines_text s.source_lines (m.line_start - 1) m.line_end) x.raw_text
window-Infix s m w x body of around made =
    let ends = seed-Ends s.source_lines s.blocks m s.seed body of in
    let left =
      lines_mono s.source_lines 1 s.blocks body.meets body.each w.0 s.seed.first made.first
        ends.first around.0 made.at_first ends.at_first in
    let right =
      lines_mono s.source_lines 1 s.blocks body.meets body.each s.seed.last w.1 ends.last made.last
        around.1.0 ends.at_last made.at_last in
    rw made.text (
      lines_text-Infix s.source_lines (first_line made.first - 1) (m.line_start - 1) m.line_end
        (last_line made.last) (omega (arith, left.0, ends.low)) (omega (arith, body.ordered))
        (omega (arith, right.1, ends.high)))

pub excerpt-Infix :
    (source_lines : List Text) (blocks : List ParsedBlock) (w : Window) (x : Excerpt)
    → IsExcerpt source_lines blocks w x
    → Infix x.raw_text (joined source_lines)
excerpt-Infix source_lines blocks w x made =
    rw made.text
      (lines_text-Infix_joined source_lines (first_line made.first - 1) (last_line made.last))
