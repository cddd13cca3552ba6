-- ===== src/Indexing/Ports.antt =====
-- The values that the indexing components exchange, application/indexing/ports.py. A `check` is the
-- `__post_init__` of its class; the tests of exact types are the model's types.
pub mod Checks
pub mod Lines
pub mod Snapshot
use omf_retrieval.Prelude.{
  Bool, List, Result, [], all, any, false, leb, list_eq, nat_beq, nat_eq, not, require, true,
  value_error, ℕ, ◌&&◌, ◌++◌, ◌==◌, ◌>>=◌, ◌>>◌, ◌∷◌,
}
use omf_retrieval.Prelude.Text.{Text, codes, is_blank, is_empty, is_hex_of}
use omf_retrieval.Prelude.Values.{is_positive, negsuc, pos, ℤ}

pub record TokenizerDescriptor : Type 0 where
  pub model_name : Text
  pub revision : Text
  pub library_name : Text
  pub library_version : Text
  pub add_special_tokens : Bool

unfoldable pub check_tokenizer_descriptor : TokenizerDescriptor → Result (Unit {0})
unfolding any is_blank
check_tokenizer_descriptor d =
    require
      (not (any is_blank (d.model_name ∷ d.revision ∷ d.library_name ∷ d.library_version ∷ [])))
      value_error

pub record ChunkConfig : Type 0 where
  pub target_tokens : ℤ
  pub soft_max_tokens : ℤ
  pub overlap_tokens : ℤ
  pub atomic_max_tokens : ℤ
  pub parent_context_max_tokens : ℤ

-- `i <= j` of two ints
unfoldable pub int_le : ℤ → ℤ → Bool
int_le (pos m) (pos n) = leb m n
int_le (pos m) (negsuc n) = false
int_le (negsuc m) (pos n) = true
int_le (negsuc m) (negsuc n) = leb n m

unfoldable pub check_chunk_config : ChunkConfig → Result (Unit {0})
unfolding int_le all
check_chunk_config c = do
  require
      (all is_positive (
        c.target_tokens ∷ c.soft_max_tokens ∷ c.atomic_max_tokens ∷ c.parent_context_max_tokens
        ∷ []))
      value_error
  require (int_le c.target_tokens c.soft_max_tokens && int_le c.soft_max_tokens c.atomic_max_tokens)
      value_error
  require (int_le (pos 0) c.overlap_tokens && not (int_le c.target_tokens c.overlap_tokens))
      value_error

unfoldable pub require_chunk_inclusive_line_range : ℕ → ℕ → Result (Unit {0})
require_chunk_inclusive_line_range line_start line_end =
    require (leb 1 line_start && leb line_start line_end) value_error

pub record ChunkWarning : Type 0 where
  pub block_kind : Text
  pub line_start : ℕ
  pub line_end : ℕ
  pub code : Text

unfoldable pub check_chunk_warning : ChunkWarning → Result (Unit {0})
unfolding require_chunk_inclusive_line_range
check_chunk_warning w = do
  require (w.code == codes "oversized_atomic_unit_token_split") value_error
  require (not (is_empty w.block_kind)) value_error
  require_chunk_inclusive_line_range w.line_start w.line_end

pub record ChunkDraft : Type 0 where
  pub ordinal : ℕ
  pub raw_text : Text
  pub search_text : Text
  pub token_count : ℕ
  pub line_start : ℕ
  pub line_end : ℕ
  pub chunk_hash : Text
  pub warnings : List ChunkWarning

unfoldable pub check_chunk_draft : ChunkDraft → Result (Unit {0})
unfolding is_hex_of require_chunk_inclusive_line_range
check_chunk_draft d = do
  require (not (is_empty d.raw_text)) value_error
  require (not (is_empty d.search_text)) value_error
  require (leb 1 d.token_count) value_error
  require_chunk_inclusive_line_range d.line_start d.line_end
  require (is_hex_of 64 d.chunk_hash) value_error

pub record ParentContext : Type 0 where
  pub raw_text : Text
  pub token_count : ℕ
  pub line_start : ℕ
  pub line_end : ℕ

unfoldable pub check_parent_context : ParentContext → Result (Unit {0})
unfolding require_chunk_inclusive_line_range
check_parent_context p = do
  require (not (is_empty p.raw_text)) value_error
  require (leb 1 p.token_count) value_error
  require_chunk_inclusive_line_range p.line_start p.line_end

-- the loop of `split_physical_lines`, with the line that is being read
unfoldable pub split_from : Text → Text → List Text
split_from [] [] = []
split_from (x ∷ line) [] = (x ∷ line) ∷ []
split_from line (c ∷ []) = (line ++ c ∷ []) ∷ []
split_from line (c ∷ d ∷ rest) = elim (nat_beq c 13) [
  | true ↦ elim (nat_beq d 10) [
    | true ↦ (line ++ c ∷ d ∷ []) ∷ split_from [] rest
    | false ↦ (line ++ c ∷ []) ∷ split_from [] (d ∷ rest)
  ]
  | false ↦ elim (nat_beq c 10) [
    | true ↦ (line ++ c ∷ []) ∷ split_from [] (d ∷ rest)
    | false ↦ split_from (line ++ c ∷ []) (d ∷ rest)
  ]
]

unfoldable pub split_physical_lines : Text → List Text
unfolding split_from
split_physical_lines = split_from []
