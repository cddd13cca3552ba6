-- ===== src/Indexing/Chunker/Split.antt =====
-- The children of a section, infrastructure/source/chunker.py.
pub mod Fits
pub mod Drafts
pub mod Short
use Prim.Native.Nat.{max, min}
use omf_retrieval.Indexing.Chunker.Atomic.{split_atomic_block}
use omf_retrieval.Indexing.Chunker.Excerpt.{Excerpt}
use omf_retrieval.Indexing.Chunker.Normal.{split_normal_blocks, window_limit_of}
use omf_retrieval.Indexing.Chunker.Tokens.{token_count}
use omf_retrieval.Indexing.Chunker.Units.{block_excerpt}
use omf_retrieval.Indexing.Chunker.Window.{Chunker}
use omf_retrieval.Indexing.Ports.{ChunkDraft, check_chunk_draft}
use omf_retrieval.Indexing.Structure.{
  ParsedBlock, ParsedSection, block_text, first_line, kind_of, last_line,
}
use omf_retrieval.Prelude.{
  Bool, List, Option, Result, [], if◌then◌else◌, leb, length, list_eq, ltb, nat_eq, none, not, ok,
  raise, require, some, value_error, ℕ, ◌++◌, ◌+◌, ◌==◌, ◌>>=◌, ◌>>◌, ◌||◌, ◌∷◌,
}
use omf_retrieval.Prelude.Text.{Text, codes, is_blank, is_empty}

unfoldable pub is_atomic_kind : Text → Bool
is_atomic_kind kind =
    kind == codes "table"
    || kind == codes "bullet_list"
    || kind == codes "ordered_list"
    || kind == codes "blockquote"

-- the variables of the loop over the blocks
pub record Packing : Type 0 where
  pub window_limit : Option ℕ
  pub chunks : List Excerpt
  pub normal_blocks : List Excerpt
  pub separator_blocks : List Excerpt
  pub source_cursor : ℕ

-- `"".join` of the raw texts
unfoldable pub joined_raw : List Excerpt → Text
joined_raw [] = []
joined_raw (x ∷ xs) = x.raw_text ++ joined_raw xs

-- the limit is computed once, when it is first needed
unfoldable pub known_limit : Chunker → Text → Option ℕ → Result ℕ
unfolding token_count window_limit_of
known_limit chunker heading_prefix (some limit) = ok limit
known_limit chunker heading_prefix none = do
  prefix_tokens ← token_count chunker.counter heading_prefix
  ok (window_limit_of chunker.config prefix_tokens)

-- the blocks so far go to the chunks
unfoldable pub split_off : Chunker → Text → Packing → Result Packing
unfolding split_normal_blocks
split_off chunker heading_prefix p = do
  done ← split_normal_blocks chunker p.normal_blocks heading_prefix
  ok (record p { chunks = p.chunks ++ done; normal_blocks = [] })

unfoldable pub flush_normal : Chunker → Text → Packing → Result Packing
unfolding split_off
flush_normal chunker heading_prefix p =
    if is_empty p.normal_blocks then ok p else split_off chunker heading_prefix p

-- blank blocks between two ordinary ones are kept, if both fit in one window
unfoldable pub place_separators : Chunker → Text → Packing → Excerpt → Result Packing
unfolding joined_raw known_limit token_count split_off
place_separators chunker heading_prefix p block = do
  limit ← known_limit chunker heading_prefix p.window_limit
  count ←
      token_count chunker.counter
        (heading_prefix ++ joined_raw (p.normal_blocks ++ p.separator_blocks ++ block ∷ []))
  if ltb limit count
      then split_off chunker heading_prefix (record p { window_limit = some limit })
      else ok (record p {
        window_limit = some limit;
        normal_blocks = p.normal_blocks ++ p.separator_blocks;
      })

unfoldable pub pack_normal : Chunker → Text → Packing → Excerpt → Result Packing
unfolding place_separators
pack_normal chunker heading_prefix p block = do
  q ← if is_empty p.separator_blocks then ok p else place_separators chunker heading_prefix p block
  ok (record q { separator_blocks = []; normal_blocks = q.normal_blocks ++ block ∷ [] })

unfoldable pub pack_atomic : Chunker → Text → Packing → ParsedBlock → ℕ → Result Packing
unfolding flush_normal split_atomic_block
pack_atomic chunker heading_prefix p b source_start = do
  q ← flush_normal chunker heading_prefix (record p { separator_blocks = [] })
  done ← split_atomic_block chunker b heading_prefix (some source_start)
  ok (record q { chunks = q.chunks ++ done })

-- a blank block separates, if there is something before it
unfoldable pub pack_blank : Packing → Excerpt → Packing
pack_blank p block =
    if is_empty p.normal_blocks
    then p
    else record p { separator_blocks = p.separator_blocks ++ block ∷ [] }

unfoldable pub pack_block : Chunker → Text → Packing → ParsedBlock → Result Packing
unfolding block_excerpt is_blank pack_blank is_atomic_kind pack_atomic pack_normal
pack_block chunker heading_prefix p b =
    let block = block_excerpt b (some p.source_cursor) in
    let p' = record p { source_cursor = p.source_cursor + length (block_text b) } in
    if is_blank (block_text b)
    then ok (pack_blank p' block)
    else if is_atomic_kind (kind_of b)
    then pack_atomic chunker heading_prefix p' b p.source_cursor
    else pack_normal chunker heading_prefix p' block

unfoldable pub pack_all : Chunker → Text → Packing → List ParsedBlock → Result Packing
unfolding pack_block
pack_all chunker heading_prefix p [] = ok p
pack_all chunker heading_prefix p (b ∷ bs) = do
  q ← pack_block chunker heading_prefix p b
  pack_all chunker heading_prefix q bs

abbrev pub no_packing : Packing
no_packing = record {
  window_limit = none;
  chunks = [];
  normal_blocks = [];
  separator_blocks = [];
  source_cursor = 0;
}

unfoldable pub split_blocks : Chunker → List ParsedBlock → Text → Result (List Excerpt)
unfolding pack_all flush_normal
split_blocks chunker blocks heading_prefix = do
  p ← pack_all chunker heading_prefix no_packing blocks
  q ← flush_normal chunker heading_prefix p
  ok q.chunks

unfoldable pub drafted : Chunker → Excerpt → ℕ → Text → ℕ → List Text → Text → ChunkDraft
drafted chunker x ordinal search_text count heading_path parser_version = record {
  ordinal = ordinal;
  raw_text = x.raw_text;
  search_text = search_text;
  token_count = count;
  line_start = x.line_start;
  line_end = x.line_end;
  chunk_hash =
      chunker.chunk_hash parser_version chunker.config_hash heading_path x.line_start x.line_end
        x.raw_text search_text;
  warnings = x.warnings;
}

unfoldable pub draft : Chunker → Excerpt → ℕ → Text → List Text → Text → Result ChunkDraft
unfolding token_count check_chunk_draft drafted
draft chunker x ordinal heading_prefix heading_path parser_version = do
  let search_text = heading_prefix ++ x.raw_text
  count ← token_count chunker.counter search_text
  let d = drafted chunker x ordinal search_text count heading_path parser_version
  check_chunk_draft d
  ok d

-- `tuple(self._draft(…) for ordinal, excerpt in enumerate(excerpts))`
unfoldable pub drafts_from :
    Chunker → ℕ → Text → List Text → Text → List Excerpt → Result (List ChunkDraft)
unfolding draft
drafts_from chunker ordinal heading_prefix heading_path parser_version [] = ok []
drafts_from chunker ordinal heading_prefix heading_path parser_version (x ∷ xs) = do
  d ← draft chunker x ordinal heading_prefix heading_path parser_version
  ds ← drafts_from chunker (ordinal + 1) heading_prefix heading_path parser_version xs
  ok (d ∷ ds)

-- `"\n".join(path) + "\n"`, or nothing for an empty path
unfoldable pub heading_prefix_of : List Text → Text
heading_prefix_of [] = []
heading_prefix_of (h ∷ path) = h ++ 10 ∷ heading_prefix_of path

unfoldable pub least : ℕ → List ParsedBlock → ℕ
least n [] = n
least n (b ∷ bs) = least (min n (first_line b)) bs

unfoldable pub greatest : ℕ → List ParsedBlock → ℕ
greatest n [] = n
greatest n (b ∷ bs) = greatest (max n (last_line b)) bs

-- `min` and `max` of the lines of the blocks, which raise for no blocks
unfoldable pub first_line_of : List ParsedBlock → Result ℕ
unfolding least
first_line_of [] = raise value_error
first_line_of (b ∷ bs) = ok (least (first_line b) bs)

unfoldable pub last_line_of : List ParsedBlock → Result ℕ
unfolding greatest
last_line_of [] = raise value_error
last_line_of (b ∷ bs) = ok (greatest (last_line b) bs)

unfoldable pub whole_section : ParsedSection → Result Excerpt
unfolding first_line_of last_line_of
whole_section s = do
  line_start ← first_line_of s.blocks
  line_end ← last_line_of s.blocks
  ok (record {
    raw_text = s.body;
    line_start = line_start;
    line_end = line_end;
    warnings = [];
    line_numbers = [];
    source_start = some 0;
    source_end = some (length s.body);
  })

-- the whole section, or its blocks in pieces
unfoldable pub section_excerpts : Chunker → ParsedSection → Result (List Excerpt)
unfolding heading_prefix_of whole_section token_count split_blocks
section_excerpts chunker s = do
  whole ← whole_section s
  count ← token_count chunker.counter (heading_prefix_of s.heading_path ++ s.body)
  if leb count chunker.config.soft_max_tokens
      then ok (whole ∷ [])
      else split_blocks chunker s.blocks (heading_prefix_of s.heading_path)

unfoldable pub split_nonblank :
    Chunker → ParsedSection → Text → Result (List ChunkDraft × List Excerpt)
unfolding section_excerpts drafts_from heading_prefix_of
split_nonblank chunker s parser_version = do
  excerpts ← section_excerpts chunker s
  drafts ←
      drafts_from chunker 0 (heading_prefix_of s.heading_path) s.heading_path parser_version
        excerpts
  ok (drafts, excerpts)

unfoldable pub split_drafts_with_excerpts :
    Chunker → ParsedSection → Text → Result (List ChunkDraft × List Excerpt)
unfolding is_blank split_nonblank
split_drafts_with_excerpts chunker s parser_version = do
  require (not (is_blank parser_version)) value_error
  if is_blank s.body then ok ([], []) else split_nonblank chunker s parser_version

unfoldable pub split : Chunker → ParsedSection → Text → Result (List ChunkDraft)
unfolding split_drafts_with_excerpts
split chunker s parser_version = do r ← split_drafts_with_excerpts chunker s parser_version; ok r.0
