-- ===== src/Examples/Context.antt =====
-- The parent context of infrastructure/source/chunker.py, with the parser of
-- infrastructure/source/markdown.py and a tokenizer that makes a token of each character.
use omf_retrieval.Examples.Chunks.{long_section, paragraph, small-IsLimits, small_chunker}
use omf_retrieval.Examples.Markdown.{block_token}
use omf_retrieval.Indexing.Chunker.Context.{
  block_expansion_windows, can_exhaustively_expand_blocks, context_search_budget, grown,
  sorted_sides, spend, windows_from,
}
use omf_retrieval.Indexing.Chunker.Context.Bounds.{IsContext, build-IsContext}
use omf_retrieval.Indexing.Chunker.Context.Build.{
  ContextBuilder, MatchedChild, body_start_line, build, check_matched, checked_context, holds_match,
  is_child, item_at, match_of, matched_source_start, reparsed_root, select_context,
  whole_or_selected,
}
use omf_retrieval.Indexing.Chunker.Context.Oversized.{
  add_seen, context_expansion_windows, context_probe_indices, oversized_block_excerpt, span_at,
  spans_from, unique, widest_span,
}
use omf_retrieval.Indexing.Chunker.Context.Parts.{
  block_at, blocks_meet, relative_line_excerpt, seed_indices, valid_reparsed_root, window_excerpt,
}
use omf_retrieval.Indexing.Chunker.Context.Select.{
  excerpt_of, expand_seed, grow, grow_once, place_in_block, seed_of, select_blocks, select_in_block,
  spend_of,
}
use omf_retrieval.Indexing.Chunker.Context.Whole.{IsChildOf, build_whole}
use omf_retrieval.Indexing.Chunker.Excerpt.{total_length}
use omf_retrieval.Indexing.Chunker.Limits.{limits_of}
use omf_retrieval.Indexing.Chunker.Split.{split_drafts_with_excerpts}
use omf_retrieval.Indexing.Chunker.Tokens.{token_count}
use omf_retrieval.Indexing.Markdown.{Token}
use omf_retrieval.Indexing.Markdown.Blocks.{
  all_roots, block_of_token, freeze_all, from_list, kind_by_token, lines_text, mapped_blocks,
}
use omf_retrieval.Indexing.Markdown.Checked.{parse-AreChecked}
use omf_retrieval.Indexing.Markdown.Headings.{
  add_heading, digits_value, heading_level, heading_lines, top_level_headings,
}
use omf_retrieval.Indexing.Markdown.Sections.{
  checked_section, fill_section, gap_block, gap_to, heading_sections, map_sections, parse,
  preamble_of, preamble_section, raw_gap, section_blocks,
}
use omf_retrieval.Indexing.Markdown.Total.Parsing.{IsDocument}
use omf_retrieval.Indexing.Markdown.Total.Trees.{enclosing}
use omf_retrieval.Indexing.Ports.{ParentContext, check_parent_context, split_physical_lines}
use omf_retrieval.Indexing.Ports.Lines.{joined}
use omf_retrieval.Indexing.Structure.{
  ParsedSection, check_parsed_block, check_parsed_markdown, check_parsed_section,
}
use omf_retrieval.Prelude.{
  List, Result, [], arith, drop, false, none, ok, raise, refl, shielded, some, take, ℕ, ◌∷◌, ◌≡◌,
}
use omf_retrieval.Prelude.Ensures.{Ensures}
use omf_retrieval.Prelude.Infix.{find}
use omf_retrieval.Prelude.Slices.{slice}
use omf_retrieval.Prelude.Sort.{sorted}
use omf_retrieval.Prelude.Text.{Text, codes, is_blank, starts_with}

-- what markdown-it gives for the body of the section
abbrev body_tokens : List Token
body_tokens =
    block_token (codes "paragraph_open") 0 (0, 1)
    ∷ block_token (codes "paragraph_open") 0 (2, 3)
    ∷ block_token (codes "bullet_list_open") 0 (3, 5)
    ∷ block_token (codes "list_item_open") 1 (3, 4)
    ∷ block_token (codes "list_item_open") 1 (4, 5)
    ∷ []

abbrev body_markdown : Text → Result (List Token)
body_markdown source = ok body_tokens

abbrev builder : ContextBuilder
builder = record { parser = parse body_markdown; chunker = small_chunker }

abbrev version : Text
version = codes "markdown-it-py-4.2.0-omf-v1"

abbrev delta : MatchedChild
delta = record { raw_text = codes "delta"; line_start = 5; line_end = 5; ordinal = none }

abbrev texts_of : Result ParentContext → Text × (ℕ × ℕ)
texts_of (ok c) = (c.raw_text, (c.line_start, c.line_end))
texts_of (raise e) = ([], (0, 0))

-- the blank line fits beside the match, the list and the first paragraph do not
around_run : texts_of (build builder long_section delta version) ≡ (codes "\ndelta\n", (4, 5))
unfolding build limits_of parse check_matched is_blank shielded top_level_headings add_heading
    heading_lines preamble_section lines_text split_physical_lines checked_section
    check_parsed_section preamble_of heading_sections mapped_blocks freeze_all from_list all_roots
    check_parsed_block map_sections section_blocks fill_section gap_to raw_gap gap_block
    check_parsed_markdown reparsed_root valid_reparsed_root blocks_meet body_start_line find
    match_of starts_with matched_source_start whole_or_selected token_count select_context
    select_blocks seed_of seed_indices block_at excerpt_of window_excerpt relative_line_excerpt
    expand_seed block_expansion_windows windows_from sorted_sides grown
    can_exhaustively_expand_blocks context_search_budget total_length grow grow_once spend_of
    checked_context check_parent_context
around_run = refl

-- the sixth chunk of the section, in a list that is over the limit
abbrev first_item : MatchedChild
first_item = record {
  raw_text = codes "- one long";
  line_start = 6;
  line_end = 6;
  ordinal = some 5;
}

cut_run :
    texts_of (build builder long_section first_item version)
    ≡ (codes "- one long\n- two lon", (6, 7))
unfolding build limits_of parse check_matched is_blank shielded top_level_headings add_heading
    heading_lines preamble_section lines_text split_physical_lines checked_section
    check_parsed_section preamble_of heading_sections mapped_blocks freeze_all from_list all_roots
    check_parsed_block map_sections section_blocks fill_section gap_to raw_gap gap_block
    check_parsed_markdown reparsed_root valid_reparsed_root blocks_meet body_start_line find
    match_of starts_with matched_source_start whole_or_selected token_count select_context
    select_blocks seed_of seed_indices block_at excerpt_of window_excerpt relative_line_excerpt
    expand_seed block_expansion_windows windows_from sorted_sides grown
    can_exhaustively_expand_blocks context_search_budget total_length grow grow_once spend_of
    checked_context check_parent_context split_drafts_with_excerpts item_at is_child holds_match
    select_in_block place_in_block oversized_block_excerpt widest_span context_probe_indices
    add_seen context_expansion_windows spans_from sorted unique span_at spend
cut_run = refl

build-IsContext_example :
    Ensures
      (IsContext small_chunker long_section.body (codes "delta"))
      (build builder long_section delta version)
build-IsContext_example =
    build-IsContext builder long_section delta version small-IsLimits
      (parse-AreChecked body_markdown long_section.body)

-- a section of one paragraph
abbrev brief_section : ParsedSection
brief_section = record long_section {
  body = codes "ab\ncd\n";
  line_end = 4;
  blocks = paragraph (codes "ab\ncd\n") 3 ∷ [];
}

abbrev brief_tokens : List Token
brief_tokens = block_token (codes "paragraph_open") 0 (0, 2) ∷ []

abbrev brief_markdown : Text → Result (List Token)
brief_markdown source = ok brief_tokens

brief-IsDocument : IsDocument brief_section.body brief_tokens
unfolding block_of_token kind_by_token enclosing heading_lines heading_level digits_value drop
    split_physical_lines
brief-IsDocument = record {
  ordered = (omega arith, (omega arith, tt));
  within = (omega arith, (tt, tt));
  headings = omega arith;
}

abbrev second_word : MatchedChild
second_word = record { raw_text = codes "d"; line_start = 4; line_end = 4; ordinal = none }

second_word-IsChildOf : IsChildOf brief_section second_word 3
unfolding split_physical_lines lines_text joined slice take drop
second_word-IsChildOf = record {
  some_text = refl;
  counted = omega arith;
  starts = refl;
  behind = omega arith;
  low = omega arith;
  ordered = omega arith;
  high = omega arith;
  found = (codes "c", (codes "\n", refl));
}

brief_headings : top_level_headings brief_tokens ≡ ok []
unfolding top_level_headings add_heading heading_lines
brief_headings = refl

brief_nonblank : is_blank brief_section.body ≡ false
unfolding is_blank
brief_nonblank = refl

brief_located : matched_source_start small_chunker brief_section second_word version none ≡ ok none
unfolding matched_source_start
brief_located = refl

brief_counted : token_count small_chunker.counter brief_section.body ≡ ok 6
unfolding token_count
brief_counted = refl

build_whole_example :
    build
      (record { parser = parse brief_markdown; chunker = small_chunker })
      brief_section
      second_word
      version
    ≡ ok (record { raw_text = codes "ab\ncd\n"; token_count = 6; line_start = 3; line_end = 4 })
unfolding limits_of
build_whole_example =
    build_whole brief_markdown small_chunker brief_section second_word 3 6 brief_tokens none refl
      brief-IsDocument brief_headings brief_nonblank second_word-IsChildOf brief_located
      brief_counted (omega arith) (omega arith)
