-- ===== src/Indexing/Structure.antt =====
-- Parsed Markdown, application/indexing/ports.py. A `check` is the `__post_init__` of its class; the
-- tests of exact types are the model's types.
use omf_retrieval.Prelude.{
  Bool, List, Option, Result, [], all, if◌then◌else◌, is_some, leb, list_eq, ltb, nat_beq, nat_eq,
  none, not, option_eq, require, some, structure_validation, true, ℕ, ◌&&◌, ◌+◌, ◌==◌, ◌>>◌, ◌∷◌,
}
use omf_retrieval.Prelude.Text.{Text, is_empty}

mutual
  pub data ParsedBlock : Type 0 where
    -- kind, raw text, first and last line, children
    parsed_block : Text → Text → ℕ → ℕ → Blocks → ParsedBlock

  pub data Blocks : Type 0 where
    no_blocks : Blocks
    next_block : ParsedBlock → Blocks → Blocks

unfoldable pub to_list : Blocks → List ParsedBlock
to_list no_blocks = []
to_list (next_block b bs) = b ∷ to_list bs

abbrev pub kind_of : ParsedBlock → Text
kind_of (parsed_block kind raw_text line_start line_end children) = kind

abbrev pub block_text : ParsedBlock → Text
block_text (parsed_block kind raw_text line_start line_end children) = raw_text

abbrev pub first_line : ParsedBlock → ℕ
first_line (parsed_block kind raw_text line_start line_end children) = line_start

abbrev pub last_line : ParsedBlock → ℕ
last_line (parsed_block kind raw_text line_start line_end children) = line_end

unfoldable pub children_of : ParsedBlock → List ParsedBlock
unfolding to_list
children_of (parsed_block kind raw_text line_start line_end children) = to_list children

unfoldable pub require_inclusive_line_range : ℕ → ℕ → Result (Unit {0})
require_inclusive_line_range line_start line_end =
    require (leb 1 line_start && leb line_start line_end) structure_validation

-- a block lies within the lines of what contains it
unfoldable pub is_inside : ℕ → ℕ → ParsedBlock → Bool
is_inside line_start line_end b = leb line_start (first_line b) && leb (last_line b) line_end

unfoldable pub check_parsed_block : ParsedBlock → Result (Unit {0})
unfolding require_inclusive_line_range all is_inside children_of
check_parsed_block b = do
  require (not (is_empty (kind_of b))) structure_validation
  require_inclusive_line_range (first_line b) (last_line b)
  require (all (is_inside (first_line b) (last_line b)) (children_of b)) structure_validation

pub record ParsedSection : Type 0 where
  pub ordinal : ℕ
  pub parent_ordinal : Option ℕ
  pub level : ℕ
  pub heading : Option Text
  pub heading_path : List Text
  pub body : Text
  pub line_start : ℕ
  pub line_end : ℕ
  pub blocks : List ParsedBlock

-- `path[-1]`, if there is one
abbrev pub last_of : List Text → Option Text
last_of [] = none
last_of (x ∷ []) = some x
last_of (x ∷ y ∷ l) = last_of (y ∷ l)

abbrev pub is_earlier : ℕ → Option ℕ → Bool
is_earlier ordinal none = true
is_earlier ordinal (some parent) = ltb parent ordinal

unfoldable pub has_heading : ParsedSection → Bool
has_heading s =
    if nat_beq s.level 0
    then not (is_some s.heading) && is_empty s.heading_path
    else is_some s.heading && last_of s.heading_path == s.heading

unfoldable pub check_parsed_section : ParsedSection → Result (Unit {0})
unfolding has_heading require_inclusive_line_range all is_inside
check_parsed_section s = do
  require (is_earlier s.ordinal s.parent_ordinal) structure_validation
  require (leb s.level 6) structure_validation
  require (has_heading s) structure_validation
  require_inclusive_line_range s.line_start s.line_end
  require (all (is_inside s.line_start s.line_end) s.blocks) structure_validation

pub record ParsedMarkdown : Type 0 where
  pub parser_version : Text
  pub sections : List ParsedSection

-- the ordinals are 0, 1, 2 and so on
unfoldable pub is_sequential : ℕ → List ParsedSection → Bool
is_sequential expected [] = true
is_sequential expected (s ∷ ss) = nat_beq s.ordinal expected && is_sequential (expected + 1) ss

unfoldable pub check_parsed_markdown : ParsedMarkdown → Result (Unit {0})
unfolding is_sequential
check_parsed_markdown m = do
  require (not (is_empty m.parser_version)) structure_validation
  require (is_sequential 0 m.sections) structure_validation
