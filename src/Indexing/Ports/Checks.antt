-- ===== src/Indexing/Ports/Checks.antt =====
-- The checks of chunks and warnings, application/indexing/ports.py, return or raise.
use omf_retrieval.Indexing.Ports.{
  ChunkDraft, ChunkWarning, ParentContext, check_chunk_draft, check_chunk_warning,
  check_parent_context, require_chunk_inclusive_line_range,
}
use omf_retrieval.Prelude.{
  Bool, Exception, Result, leb, list_eq, nat_eq, not, require, value_error, ℕ, ◌&&◌, ◌==◌, ◌>>◌,
}
use omf_retrieval.Prelude.Ensures.{Ensures-bind, Ensures-require, Halts, InPython, require-Halts}
use omf_retrieval.Prelude.Text.{codes, is_empty, is_hex_of}

module _ (b : Bool) (e : Exception) (rest : Result (Unit {0})) where
  require_and-Halts : InPython e → Halts rest → Halts (require b e >> rest)
  require_and-Halts i h = Ensures-require b e rest i (λ _. h)

pub require_range-Halts : (i j : ℕ) → Halts (require_chunk_inclusive_line_range i j)
unfolding require_chunk_inclusive_line_range
require_range-Halts i j = require-Halts (leb 1 i && leb i j) value_error tt

pub check_chunk_warning-Halts : (w : ChunkWarning) → Halts (check_chunk_warning w)
unfolding check_chunk_warning
check_chunk_warning-Halts w =
    require_and-Halts (w.code == codes "oversized_atomic_unit_token_split") value_error _ tt (
      require_and-Halts (not (is_empty w.block_kind)) value_error _ tt
        (require_range-Halts w.line_start w.line_end))

-- the last two checks of a draft
range_and_hash-Halts :
    (d : ChunkDraft)
    → Halts (
        require_chunk_inclusive_line_range d.line_start d.line_end
        >> require (is_hex_of 64 d.chunk_hash) value_error)
range_and_hash-Halts d =
    Ensures-bind (require_chunk_inclusive_line_range d.line_start d.line_end) _
      (require_range-Halts d.line_start d.line_end)
      λ u q h. require-Halts (is_hex_of 64 d.chunk_hash) value_error tt

pub check_chunk_draft-Halts : (d : ChunkDraft) → Halts (check_chunk_draft d)
unfolding check_chunk_draft
check_chunk_draft-Halts d = require_and-Halts (not (is_empty d.raw_text)) value_error _ tt (
    require_and-Halts (not (is_empty d.search_text)) value_error _ tt
      (require_and-Halts (leb 1 d.token_count) value_error _ tt (range_and_hash-Halts d)))

pub check_parent_context-Halts : (p : ParentContext) → Halts (check_parent_context p)
unfolding check_parent_context
check_parent_context-Halts p = require_and-Halts (not (is_empty p.raw_text)) value_error _ tt (
    require_and-Halts (leb 1 p.token_count) value_error _ tt
      (require_range-Halts p.line_start p.line_end))
