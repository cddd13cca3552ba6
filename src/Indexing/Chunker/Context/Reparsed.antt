-- ===== src/Indexing/Chunker/Context/Reparsed.antt =====
-- The body that infrastructure/source/chunker.py parses again: its blocks meet, and the match stands in
-- its lines.
use omf_retrieval.Indexing.Chunker.Context.Build.{
  MatchedChild, body_start_line, match_of, reparsed_root,
}
use omf_retrieval.Indexing.Chunker.Context.Inside.{IsMatch}
use omf_retrieval.Indexing.Chunker.Context.Parts.{blocks_meet, valid_reparsed_root}
use omf_retrieval.Indexing.Chunker.Split.Short.{HasLines}
use omf_retrieval.Indexing.Markdown.Blocks.{lines_text, place}
use omf_retrieval.Indexing.Markdown.Checked.{AreChecked}
use omf_retrieval.Indexing.Ports.{split_physical_lines}
use omf_retrieval.Indexing.Structure.{
  ParsedBlock, ParsedMarkdown, ParsedSection, check_parsed_block, children_of, first_line,
  is_inside, kind_of, last_line, require_inclusive_line_range,
}
use omf_retrieval.Prelude.{
  &&-split, All, All-imp, List, Option, Option-cases, Result, [], all, ap, arith, inl, inr, is_some,
  leb, leb→le, length, list_eq, nat_beq, nat_eq, not, ok, raise, require, structure_validation, sym,
  true, true-ne-false, value_error, ℕ, ◌&&◌, ◌+◌, ◌-◌, ◌==◌, ◌>>◌, ◌∙◌, ◌∷◌, ◌≡◌, ◌≤◌,
}
use omf_retrieval.Prelude.Ensures.{
  Ensures, Ensures-at, Ensures-imp, Ensures-require, refused, require-Halts, returned,
}
use omf_retrieval.Prelude.Infix.{Infix, find, find-StandsAt}
use omf_retrieval.Prelude.Text.{Text, is_empty}

checked-HasLines : (b : ParsedBlock) → check_parsed_block b ≡ ok tt → HasLines b
unfolding check_parsed_block require_inclusive_line_range
checked-HasLines b h =
    let lines : Ensures (λ _. HasLines b) (check_parsed_block b) =
      Ensures-require (not (is_empty (kind_of b))) structure_validation _ tt λ e.
        Ensures-require (leb 1 (first_line b) && leb (first_line b) (last_line b))
          structure_validation _ tt
          λ counted.
            let (low, high) = &&-split (leb 1 (first_line b)) _ counted in
            Ensures-imp
              (λ u k. (leb→le 1 (first_line b) low, leb→le (first_line b) (last_line b) high))
              (require-Halts (all (is_inside (first_line b) (last_line b)) (children_of b))
                structure_validation tt) in
    Ensures-at lines h

-- the section that is parsed again
pub reparsed_root-Meets :
    (m : ParsedMarkdown) (body version : Text)
    → AreChecked m
    → Ensures
        (λ r. (blocks_meet (split_physical_lines body) 1 r.blocks ≡ true) × All HasLines r.blocks)
        (reparsed_root m body version)
unfolding reparsed_root valid_reparsed_root
reparsed_root-Meets m body version checked =
    elim m.sections
        as (λ l.
          All (λ r. All (λ b. check_parsed_block b ≡ ok tt) r.blocks) l
          → Ensures
              (λ r.
                (blocks_meet (split_physical_lines body) 1 r.blocks ≡ true) × All HasLines r.blocks)
              (elim l as (λ _. Result ParsedSection) [
                | [] ↦ raise value_error
                | root ∷ more ↦
                    require
                      (m.parser_version == version
                        && is_empty more
                        && nat_beq root.level 0
                        && root.body == body
                        && valid_reparsed_root root body)
                      value_error
                    >> ok root
              ])) [
                | [] ↦ λ h. refused value_error tt
                | root ∷ more ↦ λ h. Ensures-require _ value_error _ tt λ tested.
                    let (_, valid) = &&-split _ (valid_reparsed_root root body) tested in
                    let (_, meets) =
                      &&-split _ (blocks_meet (split_physical_lines body) 1 root.blocks) valid in
                    returned root (meets, All-imp _ HasLines checked-HasLines root.blocks h.0)
              ]
      checked

-- the lines of the match among those of the body
abbrev pub InLines : List Text → MatchedChild → ℕ → Type 0
InLines source_lines child first =
    (first ≤ child.line_start) × (child.line_end + 1 ≤ first + length source_lines)

pub body_start_line-InLines :
    (s : ParsedSection) (source_lines : List Text) (child : MatchedChild)
    → Ensures (InLines source_lines child) (body_start_line s source_lines child)
unfolding body_start_line
body_start_line-InLines s source_lines child =
    let first = s.line_end + 1 - length source_lines in
    Ensures-require _ value_error _ tt λ tested.
      let (before, last) =
        &&-split
          (not (is_empty source_lines)
            && leb (s.line_start + length source_lines) (s.line_end + 1)
            && leb first child.line_start)
          (leb child.line_end s.line_end) tested in
      let (before', low) =
        &&-split
          (not (is_empty source_lines) && leb (s.line_start + length source_lines) (s.line_end + 1))
          (leb first child.line_start) before in
      let (_, long) =
        &&-split (not (is_empty source_lines))
          (leb (s.line_start + length source_lines) (s.line_end + 1)) before' in
      let last' = leb→le child.line_end s.line_end last in
      let long' = leb→le (s.line_start + length source_lines) (s.line_end + 1) long in
      returned first (leb→le first child.line_start low, omega (arith, last', long'))

is_some-find_lem : (t s : Text) → is_some (find s t) ≡ true → Infix t s
is_some-find_lem t s h = elim (Option-cases (find s t)) [
  | inl missing ↦ absurd (true-ne-false (sym h ∙ ap is_some missing))
  | inr (i, found) ↦
      let (before, (after, (whole, at))) = find-StandsAt s t i found in (before, (after, whole))
]

pub match_of-IsMatch :
    (body : Text) (blocks : List ParsedBlock) (child : MatchedChild) (first : ℕ) (place : Option ℕ)
    → leb child.line_start child.line_end ≡ true
    → (blocks_meet (split_physical_lines body) 1 blocks ≡ true) × All HasLines blocks
    → InLines (split_physical_lines body) child first
    → (let m = match_of child first place in
        is_some (
          find
            (lines_text (split_physical_lines body) (m.line_start - 1) m.line_end)
            child.raw_text)
        ≡ true)
    → IsMatch (split_physical_lines body) blocks (match_of child first place)
unfolding match_of
match_of-IsMatch body blocks child first place ordered meets in_lines found =
    let ordered' = leb→le child.line_start child.line_end ordered in
    record {
      body = record {
        meets = meets.0;
        each = meets.1;
        counted = omega (arith, in_lines.0);
        ordered = omega (arith, ordered');
        inside = omega (arith, in_lines.0, in_lines.1);
      };
      found = is_some-find_lem child.raw_text _ found;
    }
