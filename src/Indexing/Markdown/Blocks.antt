-- ===== src/Indexing/Markdown/Blocks.antt =====
-- The trees of blocks of a document, `_mapped_blocks` of infrastructure/source/markdown.py.
pub mod Outline
pub mod Roots
use mathlib.Core.Option
use omf_retrieval.Indexing.Markdown.{Token}
use omf_retrieval.Indexing.Ports.Lines.{joined}
use omf_retrieval.Indexing.Structure.{
  Blocks, ParsedBlock, check_parsed_block, next_block, no_blocks, parsed_block,
}
use omf_retrieval.Prelude.{
  Bool, List, Option, Result, [], false, if◌then◌else◌, leb, list_eq, nat_eq, none, ok, some, true,
  ℕ, ◌++◌, ◌+◌, ◌==◌, ◌>>=◌, ◌>>◌, ◌∷◌,
}
use omf_retrieval.Prelude.Slices.{slice}
use omf_retrieval.Prelude.Text.{Text, codes}

-- `_BLOCK_KIND_BY_TOKEN`
abbrev pub block_kind_by_token : List (Text × Text)
block_kind_by_token =
    (codes "paragraph_open", codes "paragraph")
    ∷ (codes "blockquote_open", codes "blockquote")
    ∷ (codes "bullet_list_open", codes "bullet_list")
    ∷ (codes "ordered_list_open", codes "ordered_list")
    ∷ (codes "list_item_open", codes "list_item")
    ∷ (codes "fence", codes "fenced_code")
    ∷ (codes "code_block", codes "indented_code")
    ∷ (codes "table_open", codes "table")
    ∷ (codes "tr_open", codes "table_row")
    ∷ (codes "html_block", codes "html_block")
    ∷ (codes "hr", codes "thematic_break")
    ∷ []

unfoldable pub kind_by_token : List (Text × Text) → Text → Option Text
kind_by_token [] kind = none
kind_by_token (entry ∷ entries) kind =
    let rest = kind_by_token entries kind in if entry.0 == kind then some entry.1 else rest

-- `"".join(source_lines[i:j])`
unfoldable pub lines_text : List Text → ℕ → ℕ → Text
unfolding joined slice
lines_text lines i j = joined (slice lines i j)

-- A `_BlockBuilder` that is open, with the children that are complete. A child is put under its
-- parent when it is closed, which is before the next child of that parent is made, so the children
-- stand in the order in which the source appends them.
pub record OpenBlock : Type 0 where
  pub kind : Text
  pub line_start : ℕ
  pub line_end : ℕ
  pub raw_text : Text
  pub level : ℕ
  pub children : List ParsedBlock

unfoldable pub from_list : List ParsedBlock → Blocks
from_list [] = no_blocks
from_list (b ∷ bs) = next_block b (from_list bs)

-- a builder before it is frozen
unfoldable pub built : OpenBlock → ParsedBlock
unfolding from_list
built o = parsed_block o.kind o.raw_text o.line_start o.line_end (from_list o.children)

unfoldable pub with_children : List ParsedBlock → OpenBlock → OpenBlock
with_children more o = record o { children = o.children ++ more }

-- the roots and the builders that are open, the last one first
pub record Building : Type 0 where
  pub roots : List ParsedBlock
  pub open_blocks : List OpenBlock

-- `open_blocks.pop()` while the level is not below that of the last one; `closed` is the builder
-- that was closed before, if any
unfoldable pub close_to : ℕ → List ParsedBlock → List ParsedBlock → List OpenBlock → Building
unfolding built with_children
close_to level roots closed [] = record { roots = roots ++ closed; open_blocks = [] }
close_to level roots closed (o ∷ os) =
    let parent = with_children closed o in
    let rest = close_to level roots (built parent ∷ []) os in
    if leb level o.level then rest else record { roots = roots; open_blocks = parent ∷ os }

-- a new builder under the last open one, or at the top
unfoldable pub place : OpenBlock → Bool → List ParsedBlock → List OpenBlock → Building
unfolding built with_children
place o true roots os = record { roots = roots; open_blocks = o ∷ os }
place o false roots [] = record { roots = roots ++ built o ∷ []; open_blocks = [] }
place o false roots (parent ∷ os) = record {
  roots = roots;
  open_blocks = with_children (built o ∷ []) parent ∷ os;
}

unfoldable pub new_block : List Text → Text → ℕ × ℕ → ℕ → OpenBlock
unfolding lines_text
new_block source_lines kind lines level = record {
  kind = kind;
  line_start = lines.0 + 1;
  line_end = lines.1;
  raw_text = lines_text source_lines lines.0 lines.1;
  level = level;
  children = [];
}

-- the kind and the lines of the block that a token makes
unfoldable pub block_of_token : Token → Option (Text × (ℕ × ℕ))
unfolding kind_by_token
block_of_token t = elim (kind_by_token block_kind_by_token t.kind) [
  | none ↦ none
  | some kind ↦ Option.map (λ lines. (kind, lines)) t.lines
]

-- the loop's body, for a token that makes a block
unfoldable pub add_builder : OpenBlock → Bool → Building → Building
unfolding close_to place
add_builder o opens b =
    let closed = close_to o.level b.roots [] b.open_blocks in
    place o opens closed.roots closed.open_blocks

unfoldable pub add_token : List Text → Token → Building → Building
unfolding block_of_token add_builder new_block
add_token source_lines t b = elim (block_of_token t) [
  | none ↦ b
  | some found ↦ add_builder (new_block source_lines found.0 found.1 t.level) t.opens b
]

unfoldable pub add_tokens : List Text → List Token → Building → Building
unfolding add_token
add_tokens source_lines [] b = b
add_tokens source_lines (t ∷ ts) b = add_tokens source_lines ts (add_token source_lines t b)

-- `freeze` makes the children before their parent, and each one is checked
unfoldable mutual
  pub freeze : ParsedBlock → Result (Unit {0})
  freeze (parsed_block kind raw_text line_start line_end children) = do
    freeze_all children
    check_parsed_block (parsed_block kind raw_text line_start line_end children)

  pub freeze_all : Blocks → Result (Unit {0})
  freeze_all no_blocks = ok tt
  freeze_all (next_block b bs) = do freeze b; freeze_all bs

-- the builders at the top, with everything below them
unfoldable pub all_roots : List Token → List Text → List ParsedBlock
unfolding add_tokens close_to
all_roots tokens source_lines =
    let b = add_tokens source_lines tokens (record { roots = []; open_blocks = [] }) in
    (close_to 0 b.roots [] b.open_blocks).roots

unfoldable pub mapped_blocks : List Token → List Text → Result (List ParsedBlock)
mapped_blocks tokens source_lines =
    let roots = all_roots tokens source_lines in freeze_all (from_list roots) >> ok roots
