-- ===== src/Indexing/Chunker.antt =====
-- Source-backed children of a section, infrastructure/source/chunker.py.
pub mod Tokens
pub mod Groups
pub mod Excerpt
pub mod Window
pub mod Limits
pub mod Normal
pub mod Units
pub mod Atomic
pub mod Split
pub mod Source
pub mod Context
