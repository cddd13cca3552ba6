-- ===== src/Search.antt =====
-- The query path, src/omf_retrieval/application/search.
pub mod Ports
pub mod Rrf
pub mod Evidence
pub mod Policy
pub mod Service
