-- ===== src/Indexing/Chunker/Excerpt.antt =====
-- Excerpts of a section's text with the lines that they come from, infrastructure/source/chunker.py.
pub mod Laws
use Prim.Native.Nat.{max, min}
use omf_retrieval.Indexing.Ports.{ChunkWarning, split_physical_lines}
use omf_retrieval.Prelude.{
  Bool, List, Option, Result, [], any, false, if◌then◌else◌, index_error, length, ltb, none, ok,
  raise, some, suc, take, true, zero, ℕ, ◌&&◌, ◌++◌, ◌+◌, ◌-◌, ◌>>=◌, ◌>>◌, ◌∷◌,
}
use omf_retrieval.Prelude.Slices.{bisect_left, bisect_right, slice}
use omf_retrieval.Prelude.Text.{Text, is_blank, is_empty}

pub record Excerpt : Type 0 where
  pub raw_text : Text
  pub line_start : ℕ
  pub line_end : ℕ
  pub warnings : List ChunkWarning
  pub line_numbers : List ℕ
  pub source_start : Option ℕ
  pub source_end : Option ℕ

-- `range(first, first + count)`
unfoldable pub numbers_from : ℕ → ℕ → List ℕ
numbers_from first zero = []
numbers_from first (suc count) = first ∷ numbers_from (first + 1) count

unfoldable pub excerpt_line_numbers : Excerpt → List ℕ
unfolding numbers_from
excerpt_line_numbers x =
    if is_empty x.line_numbers
    then numbers_from x.line_start (x.line_end + 1 - x.line_start)
    else x.line_numbers

unfoldable pub join_excerpts : Excerpt → Excerpt → Excerpt
unfolding excerpt_line_numbers
join_excerpts first second =
    if is_empty first.raw_text then second else if is_empty second.raw_text then first else record {
      raw_text = first.raw_text ++ second.raw_text;
      line_start = min first.line_start second.line_start;
      line_end = max first.line_end second.line_end;
      warnings = first.warnings ++ second.warnings;
      line_numbers = excerpt_line_numbers first ++ excerpt_line_numbers second;
      source_start = first.source_start;
      source_end = second.source_end;
    }

-- the running sum of the lengths of the lines
unfoldable pub line_ends_from : ℕ → List Text → List ℕ
line_ends_from cursor [] = []
line_ends_from cursor (l ∷ ls) = (cursor + length l) ∷ line_ends_from (cursor + length l) ls

unfoldable pub physical_line_ends : Text → List ℕ
unfolding line_ends_from split_physical_lines
physical_line_ends raw_text = line_ends_from 0 (split_physical_lines raw_text)

-- `l[-1]` and `l[0]`
unfoldable pub last_number : List ℕ → Result ℕ
last_number [] = raise index_error
last_number (n ∷ []) = ok n
last_number (n ∷ m ∷ l) = last_number (m ∷ l)

unfoldable pub first_number : List ℕ → Result ℕ
first_number [] = raise index_error
first_number (n ∷ l) = ok n

abbrev pub shifted : Option ℕ → ℕ → Option ℕ
shifted none n = none
shifted (some source) n = some (source + n)

unfoldable pub empty_at_end : Excerpt → Excerpt
empty_at_end x = record {
  raw_text = [];
  line_start = x.line_end;
  line_end = x.line_end;
  warnings = [];
  line_numbers = [];
  source_start = x.source_end;
  source_end = x.source_end;
}

-- a slice that is not empty, with the numbers of its lines
unfoldable pub cut_excerpt : Excerpt → ℕ → ℕ → List ℕ → Result Excerpt
unfolding slice first_number last_number
cut_excerpt x i j line_numbers = do
  line_start ← first_number line_numbers
  line_end ← last_number line_numbers
  ok (record {
    raw_text = slice x.raw_text i j;
    line_start = line_start;
    line_end = line_end;
    warnings = x.warnings;
    line_numbers = line_numbers;
    source_start = shifted x.source_start i;
    source_end = shifted x.source_start j;
  })

unfoldable pub slice_excerpt_with_line_ends : Excerpt → ℕ → ℕ → List ℕ → Result Excerpt
unfolding empty_at_end excerpt_line_numbers bisect_left bisect_right slice cut_excerpt
slice_excerpt_with_line_ends x i j cumulative_ends =
    if is_empty (slice x.raw_text i j)
    then ok (empty_at_end x)
    else cut_excerpt x i j (
        slice (excerpt_line_numbers x) (bisect_right cumulative_ends i)
          (bisect_left cumulative_ends j + 1))

unfoldable pub slice_excerpt : Excerpt → ℕ → ℕ → Result Excerpt
unfolding slice_excerpt_with_line_ends physical_line_ends
slice_excerpt x i j = slice_excerpt_with_line_ends x i j (physical_line_ends x.raw_text)

unfoldable pub with_warning : Excerpt → ChunkWarning → Excerpt
with_warning x warning = record x { warnings = warning ∷ [] }

-- `sum(len(line) for line in lines)`
unfoldable pub total_length : List Text → ℕ
total_length [] = 0
total_length (l ∷ ls) = length l + total_length ls

-- the loop from the first line on
unfoldable pub skip_blank : ℕ → List Text → ℕ
unfolding is_blank
skip_blank first [] = first
skip_blank first (l ∷ ls) = elim (is_blank l) [ true ↦ skip_blank (first + 1) ls | false ↦ first ]

-- the loop from the last line back to `first`
unfoldable pub drop_blank : List Text → ℕ → ℕ → ℕ
unfolding is_blank any slice
drop_blank lines first zero = zero
drop_blank lines first (suc last) =
    elim (ltb first (suc last) && any is_blank (slice lines last (suc last))) [
      | true ↦ drop_blank lines first last
      | false ↦ suc last
    ]

unfoldable pub trim_excerpt_whitespace_lines : Excerpt → Bool → Bool → Result Excerpt
unfolding split_physical_lines skip_blank drop_blank total_length take slice_excerpt
trim_excerpt_whitespace_lines x leading trailing =
    let lines = split_physical_lines x.raw_text in
    let first = if leading then skip_blank 0 lines else 0 in
    let last = if trailing then drop_blank lines first (length lines) else length lines in
    slice_excerpt x (total_length (take first lines)) (total_length (take last lines))
