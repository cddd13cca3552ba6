-- ===== src/Indexing/Ports/Snapshot.antt =====
-- Source snapshots, application/indexing/ports.py. A `check` is the `__post_init__` of its class.
use omf_retrieval.Prelude.{
  Bool, List, Result, [], any, distinct, false, list_eq, map, nat_beq, nat_eq, not, require,
  snapshot_validation, true, ℕ, ◌++◌, ◌==◌, ◌>>◌, ◌||◌, ◌∷◌,
}
use omf_retrieval.Prelude.Sort.{sorted}
use omf_retrieval.Prelude.Text.{Text, codes, is_empty, is_hex_of, starts_with, text_lt}

-- `s.split(chr(separator))`, with the part that is being read
unfoldable pub split_parts : ℕ → Text → Text → List Text
split_parts separator part [] = part ∷ []
split_parts separator part (c ∷ s) = elim (nat_beq c separator) [
  | true ↦ part ∷ split_parts separator [] s
  | false ↦ split_parts separator (part ++ c ∷ []) s
]

unfoldable pub is_bad_part : Text → Bool
is_bad_part part = is_empty part || part == codes "." || part == codes ".."

unfoldable pub require_canonical_source_path : Text → Result (Unit {0})
unfolding any starts_with split_parts is_bad_part
require_canonical_source_path path = do
  require (not (is_empty path)) snapshot_validation
  require
      (not (
        any (λ c. nat_beq c 0) path
        || any (λ c. nat_beq c 92) path
        || starts_with path (codes "/")))
      snapshot_validation
  require (not (any is_bad_part (split_parts 47 [] path))) snapshot_validation

pub record ArchiveFile : Type 0 where
  pub source_path : Text
  pub content : List ℕ

unfoldable pub check_archive_file : ArchiveFile → Result (Unit {0})
unfolding require_canonical_source_path
check_archive_file f = require_canonical_source_path f.source_path

pub record SourceSnapshot : Type 0 where
  pub commit_sha : Text
  pub archive_files : List ArchiveFile
  pub excluded_file_count : ℕ

abbrev pub source_paths : SourceSnapshot → List Text
source_paths s = map (λ f. f.source_path) s.archive_files

unfoldable pub check_source_snapshot : SourceSnapshot → Result (Unit {0})
unfolding is_hex_of distinct sorted text_lt
check_source_snapshot s = do
  require (is_hex_of 40 s.commit_sha) snapshot_validation
  require (distinct (source_paths s)) snapshot_validation
  require (source_paths s == sorted text_lt (source_paths s)) snapshot_validation
