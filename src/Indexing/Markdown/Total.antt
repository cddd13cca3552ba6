-- ===== src/Indexing/Markdown/Total.antt =====
-- Documents for which `parse` of infrastructure/source/markdown.py returns.
pub mod Trees
pub mod Tokens
pub mod Fill
pub mod Sections
pub mod Ready
pub mod Parsing
use omf_retrieval.Prelude.{ℕ}
