-- ===== src/Admin.antt =====
-- Client credentials and access, src/omf_retrieval/application/admin.
pub mod Base64
pub mod Tokens
pub mod Store
pub mod Access
