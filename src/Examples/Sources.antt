-- ===== src/Examples/Sources.antt =====
-- Physical lines and snapshots of small sources.
use omf_retrieval.Indexing.Ports.{split_physical_lines}
use omf_retrieval.Indexing.Ports.Lines.{AreLines, joined, split_physical_lines-AreLines}
use omf_retrieval.Indexing.Ports.Snapshot.{
  SourceSnapshot, check_archive_file, check_source_snapshot,
}
use omf_retrieval.Prelude.{[], ok, raise, refl, snapshot_validation, ◌∷◌, ◌≡◌}
use omf_retrieval.Prelude.Text.{codes}

-- CR, CR LF and LF end a line; the last line has no end
lines_run :
    split_physical_lines (97 ∷ 13 ∷ 98 ∷ 13 ∷ 10 ∷ 10 ∷ 99 ∷ [])
    ≡ (97 ∷ 13 ∷ []) ∷ (98 ∷ 13 ∷ 10 ∷ []) ∷ (10 ∷ []) ∷ (99 ∷ []) ∷ []
unfolding split_physical_lines
lines_run = refl

split_physical_lines-AreLines_example :
    (joined (split_physical_lines (codes "a\nb")) ≡ codes "a\nb")
    × AreLines (split_physical_lines (codes "a\nb"))
split_physical_lines-AreLines_example = split_physical_lines-AreLines (codes "a\nb")

abbrev two_files : SourceSnapshot
two_files = record {
  commit_sha = codes "0123456789abcdef0123456789abcdef01234567";
  archive_files =
      record { source_path = codes "a/b.md"; content = 1 ∷ [] }
      ∷ record { source_path = codes "a/c.md"; content = [] }
      ∷ [];
  excluded_file_count = 0;
}

canonical_run : check_archive_file (record { source_path = codes "a/b.md"; content = [] }) ≡ ok tt
unfolding check_archive_file
canonical_run = refl

escaping_run :
    check_archive_file (record { source_path = codes "a/../b"; content = [] })
    ≡ raise snapshot_validation
unfolding check_archive_file
escaping_run = refl

snapshot_run : check_source_snapshot two_files ≡ ok tt
unfolding check_source_snapshot
snapshot_run = refl
