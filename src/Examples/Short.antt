-- ===== src/Examples/Short.antt =====
-- A section that is one chunk of infrastructure/source/chunker.py, with a tokenizer that makes a token
-- of each character.
use omf_retrieval.Examples.Chunks.{long_section, paragraph, small_chunker}
use omf_retrieval.Indexing.Chunker.Limits.{limits_of}
use omf_retrieval.Indexing.Chunker.Source.Section.{blocks_text}
use omf_retrieval.Indexing.Chunker.Split.{heading_prefix_of, split}
use omf_retrieval.Indexing.Chunker.Split.Short.{HoldsLines, Hashes, split_short}
use omf_retrieval.Indexing.Chunker.Tokens.{token_count}
use omf_retrieval.Indexing.Ports.{ChunkDraft}
use omf_retrieval.Indexing.Structure.{ParsedSection}
use omf_retrieval.Prelude.{All, [], all, arith, false, ok, refl, ◌++◌, ◌∷◌, ◌≡◌}
use omf_retrieval.Prelude.Text.{codes, is_blank, is_hex, is_hex_of}

abbrev short_section : ParsedSection
short_section = record long_section {
  body = codes "ab\n\n";
  blocks = paragraph (codes "ab\n") 3 ∷ paragraph (codes "\n") 4 ∷ [];
}

small-Hashes : Hashes small_chunker
unfolding is_hex_of all is_hex
small-Hashes version hash path i j raw search = refl

short_section_text : blocks_text short_section.blocks ≡ short_section.body
unfolding blocks_text
short_section_text = refl

short_section_tokens :
    token_count small_chunker.counter
      (heading_prefix_of short_section.heading_path ++ short_section.body)
    ≡ ok 6
unfolding token_count heading_prefix_of
short_section_tokens = refl

short_section_nonblank : is_blank short_section.body ≡ false
unfolding is_blank
short_section_nonblank = refl

version_nonblank : is_blank (codes "v1") ≡ false
unfolding is_blank
version_nonblank = refl

split_short_example :
    (d : ChunkDraft) × ((split small_chunker short_section (codes "v1") ≡ ok (d ∷ []))
      × ((d.raw_text ≡ short_section.body)
          × ((d.search_text ≡ heading_prefix_of short_section.heading_path ++ short_section.body)
              × ((d.token_count ≡ 6)
                  × All (HoldsLines d.line_start d.line_end) short_section.blocks))))
unfolding limits_of
split_short_example =
    split_short small_chunker short_section (codes "v1") 6 small-Hashes version_nonblank
      short_section_nonblank short_section_text
      ((omega arith, omega arith), ((omega arith, omega arith), tt)) short_section_tokens
      (omega arith) (omega arith)
