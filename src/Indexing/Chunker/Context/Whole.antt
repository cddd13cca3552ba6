-- ===== src/Indexing/Chunker/Context/Whole.antt =====
-- `ParentContextBuilder.build` of infrastructure/source/chunker.py returns a section's text that is
-- within the limit as a whole.
use omf_retrieval.Indexing.Chunker.Context.Build.{
  MatchedChild, body_start_line, build, check_matched, checked_context, match_of,
  matched_source_start, reparsed_root, whole_or_selected,
}
use omf_retrieval.Indexing.Chunker.Context.Parts.{valid_reparsed_root}
use omf_retrieval.Indexing.Chunker.Context.Root.{IsRoot, nonblank_lines, parse-IsRoot}
use omf_retrieval.Indexing.Chunker.Tokens.{token_count}
use omf_retrieval.Indexing.Chunker.Window.{Chunker}
use omf_retrieval.Indexing.Markdown.{Token}
use omf_retrieval.Indexing.Markdown.Blocks.{lines_text, place}
use omf_retrieval.Indexing.Markdown.Headings.{top_level_headings}
use omf_retrieval.Indexing.Markdown.Sections.{parse, parser_version}
use omf_retrieval.Indexing.Markdown.Total.Parsing.{IsDocument, parse_returns}
use omf_retrieval.Indexing.Ports.{
  check_parent_context, require_chunk_inclusive_line_range, split_physical_lines,
}
use omf_retrieval.Indexing.Structure.{ParsedMarkdown, ParsedSection}
use omf_retrieval.Prelude.{
  &&-intro, Bool-cases, List, Option, Option-cases, Result, [], ap, arith, false, inl, inr, is_some,
  leb, length, le→leb, list_eq, nat_beq, nat_beq_iff, nat_eq, nat_refl, not, ok, refl, shielded,
  sym, true, true-ne-false, ℕ, ◌&&◌, ◌++◌, ◌+◌, ◌-◌, ◌==◌, ◌∙◌, ◌∷◌, ◌≡◌, ◌≤◌,
}
use omf_retrieval.Prelude.Ensures.{Ensures-at}
use omf_retrieval.Prelude.Infix.{Infix, find}
use omf_retrieval.Prelude.Text.{Text, is_blank, is_empty, lstrip, starts_with, strip}

starts_with-append : (p s : Text) → starts_with (p ++ s) p ≡ true
unfolding starts_with
starts_with-append [] s = refl
starts_with-append (c ∷ p) s = &&-intro _ _ (nat_refl c) (starts_with-append p s)

starts_with_nil : (s : Text) → starts_with s [] ≡ true
unfolding starts_with
starts_with_nil s = refl

-- a part of a text is found
find_complete : (t before after : Text) → is_some (find (before ++ (t ++ after)) t) ≡ true
unfolding find
find_complete [] [] [] = refl
find_complete [] [] (c ∷ after) = rw (starts_with_nil (c ∷ after)) refl
find_complete (c ∷ t) [] after = rw (starts_with-append (c ∷ t) after) refl
find_complete t (c ∷ before) after =
    elim (Bool-cases (starts_with (c ∷ (before ++ (t ++ after))) t)) [
      | inl here ↦ rw here refl
      | inr further ↦ elim (Option-cases (find (before ++ (t ++ after)) t)) [
        | inl missing ↦
            absurd (true-ne-false (sym (find_complete t before after) ∙ ap is_some missing))
        | inr (i, found) ↦ rw (further, found) refl
      ]
    ]

-- a matched child with lines of the section, and its text in them
pub record IsChildOf (s : ParsedSection) (child : MatchedChild) (first : ℕ) : Type 0 where
  pub some_text : is_empty child.raw_text ≡ false
  pub counted : 1 ≤ s.line_start
  pub starts : s.line_end + 1 ≡ first + length (split_physical_lines s.body)
  pub behind : s.line_start ≤ first
  pub low : first ≤ child.line_start
  pub ordered : child.line_start ≤ child.line_end
  pub high : child.line_end ≤ s.line_end
  pub found : Infix child.raw_text (
      lines_text
        (split_physical_lines s.body)
        (child.line_start - first)
        (child.line_end + 1 - first))

reparsed_root_ok :
    (source : Text) (m : ParsedMarkdown) (is : IsRoot source m)
    → reparsed_root m source parser_version ≡ ok is.root
unfolding reparsed_root
reparsed_root_ok source m is =
    let test : (m.parser_version == parser_version
          && true
          && nat_beq is.root.level 0
          && is.root.body == source
          && valid_reparsed_root is.root source)
        ≡ true =
      &&-intro _ _
        (&&-intro _ _
          (&&-intro _ _
            (&&-intro _ _ ((list_eq.beq_iff m.parser_version parser_version).1 is.version) refl)
            ((nat_beq_iff is.root.level 0).1 is.top))
          ((list_eq.beq_iff is.root.body source).1 is.whole))
        is.valid in
    rw (is.only, test) refl

check_matched_ok :
    (s : ParsedSection) (child : MatchedChild) (first : ℕ)
    → IsChildOf s child first
    → check_matched child parser_version ≡ ok tt
unfolding check_matched is_blank
check_matched_ok s child first is =
    let test : (not (is_empty child.raw_text)
          && leb 1 child.line_start
          && leb child.line_start child.line_end
          && true)
        ≡ true =
      &&-intro _ _
        (&&-intro _ _
          (&&-intro _ _ (ap not is.some_text)
            (le→leb 1 child.line_start (omega (arith, is.counted, is.behind, is.low))))
          (le→leb child.line_start child.line_end is.ordered))
        refl in
    rw test refl

some_lines : (l : List Text) → 1 ≤ length l → is_empty l ≡ false
some_lines [] h = absurd (omega arith)
some_lines (x ∷ l) h = refl

body_start_line_ok :
    (s : ParsedSection) (child : MatchedChild) (first : ℕ)
    → is_blank s.body ≡ false
    → IsChildOf s child first
    → body_start_line s (split_physical_lines s.body) child ≡ ok first
unfolding body_start_line
body_start_line_ok s child first h is =
    let lines = split_physical_lines s.body in
    let at : s.line_end + 1 - length lines ≡ first = omega (arith, is.starts) in
    let test : (not (is_empty lines)
          && leb (s.line_start + length lines) (s.line_end + 1)
          && leb (s.line_end + 1 - length lines) child.line_start
          && leb child.line_end s.line_end)
        ≡ true =
      &&-intro _ _
        (&&-intro _ _
          (&&-intro _ _ (ap not (some_lines lines (nonblank_lines s.body h))) (
            le→leb (s.line_start + length lines) (s.line_end + 1)
              (omega (arith, is.starts, is.behind))))
          (le→leb (s.line_end + 1 - length lines) child.line_start (omega (arith, at, is.low))))
        (le→leb child.line_end s.line_end is.high) in
    rw test (ap ok at)

nonblank_some : (text : Text) → is_blank text ≡ false → is_empty text ≡ false
unfolding is_blank strip lstrip
nonblank_some [] h = absurd (true-ne-false h)
nonblank_some (c ∷ text) h = refl

checked_context_ok :
    (text : Text) (count i j : ℕ)
    → is_empty text ≡ false
    → 1 ≤ count
    → 1 ≤ i
    → i ≤ j
    → checked_context text count i j
      ≡ ok (record { raw_text = text; token_count = count; line_start = i; line_end = j })
unfolding checked_context check_parent_context require_chunk_inclusive_line_range
checked_context_ok text count i j h counted low order =
    let one = le→leb 1 count counted in
    let first = le→leb 1 i low in let last = le→leb i j order in rw (h, one, first, last) refl

-- A matched child of a section whose text has no headings, is not blank and is within the limit on
-- parent contexts gets the whole text as its context, with the tokenizer's count, from the line on
-- which the text starts to the section's last: markdown-it returns tokens of a document for the text,
-- the child has lines of the section that hold its text, its place is found if its ordinal is given,
-- and the text has at least one token.
pub build_whole :
    (markdown_it : Text → Result (List Token)) (chunker : Chunker) (s : ParsedSection)
    (child : MatchedChild) (first count : ℕ) (tokens : List Token) (place : Option ℕ)
    → markdown_it s.body ≡ ok tokens
    → IsDocument s.body tokens
    → top_level_headings tokens ≡ ok []
    → is_blank s.body ≡ false
    → IsChildOf s child first
    → matched_source_start chunker s child parser_version child.ordinal ≡ ok place
    → token_count chunker.counter s.body ≡ ok count
    → 1 ≤ count
    → count ≤ chunker.config.parent_context_max_tokens
    → build (record { parser = parse markdown_it; chunker = chunker }) s child parser_version
      ≡ ok (record {
        raw_text = s.body;
        token_count = count;
        line_start = first;
        line_end = s.line_end;
      })
unfolding build whole_or_selected match_of shielded
build_whole markdown_it chunker s child first count tokens place e d no_headings h is located
      counted some_token within =
    let lines = split_physical_lines s.body in
    let (m, parsed) = parse_returns markdown_it s.body tokens e d in
    let root =
      Ensures-at (parse-IsRoot markdown_it s.body tokens e d.ordered no_headings h) parsed in
    let before : child.line_start + 1 - first - 1 ≡ child.line_start - first = omega arith in
    let (front, (back, whole)) = is.found in
    let found : is_some (
          find (lines_text lines (child.line_start - first) (child.line_end + 1 - first))
            child.raw_text)
        ≡ true =
      rw whole (find_complete child.raw_text front back) in
    let fits = le→leb count chunker.config.parent_context_max_tokens within in
    rw
      (
        check_matched_ok s child first is,
        parsed,
        reparsed_root_ok s.body m root,
        body_start_line_ok s child first h is,
        before,
        found,
        located,
        counted,
        fits,
      )
      (checked_context_ok s.body count first s.line_end (nonblank_some s.body h) some_token
        (omega (arith, is.counted, is.behind)) (omega (arith, is.low, is.ordered, is.high)))
