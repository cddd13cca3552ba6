-- ===== src/Indexing/Chunker/Context/Build.antt =====
-- `ParentContextBuilder.build` of infrastructure/source/chunker.py.
use omf_retrieval.Indexing.Chunker.Context.Parts.{valid_reparsed_root}
use omf_retrieval.Indexing.Chunker.Context.Select.{Match, select_blocks}
use omf_retrieval.Indexing.Chunker.Excerpt.{Excerpt}
use omf_retrieval.Indexing.Chunker.Split.{split_drafts_with_excerpts}
use omf_retrieval.Indexing.Chunker.Tokens.{token_count}
use omf_retrieval.Indexing.Chunker.Window.{Chunker}
use omf_retrieval.Indexing.Markdown.Blocks.{lines_text}
use omf_retrieval.Indexing.Markdown.Sections.{parser_version}
use omf_retrieval.Indexing.Ports.{
  ChunkDraft, ParentContext, check_parent_context, split_physical_lines,
}
use omf_retrieval.Indexing.Structure.{ParsedBlock, ParsedMarkdown, ParsedSection}
use omf_retrieval.Prelude.{
  Bool, List, Option, Result, [], false, get_elem?, if◌then◌else◌, index_error, is_some, leb,
  length, list_eq, ltb, nat_beq, nat_eq, none, not, ok, raise, require, shielded, some, value_error,
  ℕ, ◌&&◌, ◌+◌, ◌-◌, ◌==◌, ◌>>=◌, ◌>>◌, ◌∷◌,
}
use omf_retrieval.Prelude.Infix.{find}
use omf_retrieval.Prelude.Slices.{slice}
use omf_retrieval.Prelude.Text.{Text, is_blank, is_empty}

-- The parser, and the tokenizer and limits in the chunker that the builder makes of them. A call of
-- the parser that returns no `ParsedMarkdown` is refused as one that raises is.
pub record ContextBuilder : Type 0 where
  pub parser : Text → Result ParsedMarkdown
  pub chunker : Chunker

-- the arguments about the matched child; a negative ordinal is refused first
pub record MatchedChild : Type 0 where
  pub raw_text : Text
  pub line_start : ℕ
  pub line_end : ℕ
  pub ordinal : Option ℕ

unfoldable pub check_matched : MatchedChild → Text → Result (Unit {0})
check_matched child parser_version =
    require
      (not (is_empty child.raw_text)
        && leb 1 child.line_start
        && leb child.line_start child.line_end
        && not (is_blank parser_version))
      value_error

-- the one section of the body that is parsed again
unfoldable pub reparsed_root : ParsedMarkdown → Text → Text → Result ParsedSection
reparsed_root m body version = elim m.sections [
  | [] ↦ raise value_error
  | root ∷ more ↦
      require
        (m.parser_version == version
          && is_empty more
          && nat_beq root.level 0
          && root.body == body
          && valid_reparsed_root root body)
        value_error
      >> ok root
]

-- The line of the document on which the body starts, `line_end - len(source_lines) + 1`. It is not
-- before the section's first line, which is at least 1, so the subtraction is exact.
unfoldable pub body_start_line : ParsedSection → List Text → MatchedChild → Result ℕ
body_start_line s source_lines child = do
  let first = s.line_end + 1 - length source_lines
  require
      (not (is_empty source_lines)
        && leb (s.line_start + length source_lines) (s.line_end + 1)
        && leb first child.line_start
        && leb child.line_end s.line_end)
      value_error
  ok first

-- `l[i]` of the drafts or the excerpts
unfoldable pub item_at {ℓ} : {A : Type ℓ} → List A → ℕ → Result A
item_at l i = elim (get_elem? l i) [ none ↦ raise index_error | some x ↦ ok x ]

-- an excerpt with a place in the body that holds the match
unfoldable pub holds_match : Text → MatchedChild → Excerpt → Bool
holds_match body child x = elim x.source_start [
  | none ↦ false
  | some i ↦ elim x.source_end [
    | none ↦ false
    | some j ↦ nat_beq j (i + length child.raw_text) && slice body i j == child.raw_text
  ]
]

unfoldable pub is_child : MatchedChild → ℕ → ChunkDraft → Bool
is_child child ordinal d =
    nat_beq d.ordinal ordinal
    && d.raw_text == child.raw_text
    && nat_beq d.line_start child.line_start
    && nat_beq d.line_end child.line_end

-- the place of the match, where the ordinal of the child is known
unfoldable pub matched_source_start :
    Chunker → ParsedSection → MatchedChild → Text → Option ℕ → Result (Option ℕ)
matched_source_start chunker s child version none = ok none
matched_source_start chunker s child version (some ordinal) = do
  r ← split_drafts_with_excerpts chunker s version
  require (ltb ordinal (length r.0)) value_error
  d ← item_at r.0 ordinal
  located ← item_at r.1 ordinal
  require (is_child child ordinal d && holds_match s.body child located) value_error
  ok located.source_start

unfoldable pub checked_context : Text → ℕ → ℕ → ℕ → Result ParentContext
checked_context raw_text token_count line_start line_end =
    let context : ParentContext = record {
      raw_text = raw_text;
      token_count = token_count;
      line_start = line_start;
      line_end = line_end;
    } in
    check_parent_context context >> ok context

-- the blocks around the match, where the body is over the limit
unfoldable pub select_context :
    Chunker → List ParsedBlock → List Text → ℕ → Match → Result ParentContext
select_context chunker blocks source_lines body_line_start m = do
  x ←
      select_blocks chunker.counter chunker.config.parent_context_max_tokens blocks source_lines
        body_line_start m
  count ← token_count chunker.counter x.raw_text
  checked_context x.raw_text count x.line_start x.line_end

-- the whole body, if it is within the limit
unfoldable pub whole_or_selected :
    Chunker → ParsedSection → List ParsedBlock → List Text → ℕ → Match → Result ParentContext
whole_or_selected chunker s blocks source_lines body_line_start m = do
  whole_token_count ← token_count chunker.counter s.body
  if leb whole_token_count chunker.config.parent_context_max_tokens
      then checked_context s.body whole_token_count body_line_start s.line_end
      else select_context chunker blocks source_lines body_line_start m

-- the match by its lines in the body
unfoldable pub match_of : MatchedChild → ℕ → Option ℕ → Match
match_of child body_line_start source_start = record {
  line_start = child.line_start + 1 - body_line_start;
  line_end = child.line_end + 1 - body_line_start;
  raw_text = child.raw_text;
  source_start = source_start;
}

unfoldable pub build : ContextBuilder → ParsedSection → MatchedChild → Text → Result ParentContext
build builder s child parser_version = do
  check_matched child parser_version
  parsed ← shielded value_error (builder.parser s.body)
  root ← reparsed_root parsed s.body parser_version
  let source_lines = split_physical_lines s.body
  body_line_start ← body_start_line s source_lines child
  let m = match_of child body_line_start none
  require (is_some (find (lines_text source_lines (m.line_start - 1) m.line_end) child.raw_text))
      value_error
  source_start ← matched_source_start builder.chunker s child parser_version child.ordinal
  whole_or_selected builder.chunker s root.blocks source_lines body_line_start
      (match_of child body_line_start source_start)
