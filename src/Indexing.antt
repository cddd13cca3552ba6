-- ===== src/Indexing.antt =====
-- The life cycle of index generations, application/indexing and infrastructure/database.
pub mod Ports
pub mod Structure
pub mod Chunker
pub mod Markdown
pub mod Tables
pub mod Activation
pub mod Service
