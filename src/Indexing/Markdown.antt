-- ===== src/Indexing/Markdown.antt =====
-- The parser of Markdown, infrastructure/source/markdown.py. The tokens of markdown-it are a
-- parameter.
pub mod Headings
pub mod Blocks
pub mod Checks
pub mod Coverage
pub mod Sections
pub mod Nesting
pub mod Total
pub mod Checked
use omf_retrieval.Prelude.{Bool, Option, ℕ}
use omf_retrieval.Prelude.Text.{Text}

-- A token of markdown-it: its type, tag and nesting level, the lines that it maps, counted from 0
-- and the second behind the last, whether it opens a block (`nesting == 1`), and its content.
pub record Token : Type 0 where
  pub kind : Text
  pub tag : Text
  pub level : ℕ
  pub lines : Option (ℕ × ℕ)
  pub opens : Bool
  pub content : Text
