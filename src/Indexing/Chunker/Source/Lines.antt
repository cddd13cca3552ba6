-- ===== src/Indexing/Chunker/Source/Lines.antt =====
-- Lines of an excerpt, by the lengths of the lines before them, and what trimming leaves.
use omf_retrieval.Indexing.Chunker.Excerpt.{
  Excerpt, drop_blank, physical_line_ends, skip_blank, slice_excerpt, total_length,
  trim_excerpt_whitespace_lines,
}
use omf_retrieval.Indexing.Chunker.Excerpt.Laws.{
  is_empty-eq_nil, slice_excerpt_with_line_ends-Ensures,
}
use omf_retrieval.Indexing.Chunker.Source.{At, At-length, slice_excerpt_with_line_ends-At}
use omf_retrieval.Indexing.Ports.{split_physical_lines}
use omf_retrieval.Indexing.Ports.Lines.{joined, split_physical_lines-AreLines}
use omf_retrieval.Prelude.{
  Bool, List, [], ap, arith, false, if◌then◌else◌, length, length-append, refl, suc, sym, take,
  true, zero, ℕ, ◌-◌, ◌∙◌, ◌∷◌, ◌≡◌, ◌≤◌,
}
use omf_retrieval.Prelude.Ensures.{Ensures, Ensures-both, Ensures-imp}
use omf_retrieval.Prelude.Slices.{slice}
use omf_retrieval.Prelude.Slices.Laws.{length-slice}
use omf_retrieval.Prelude.Text.{Text, is_empty}

pub total_length-joined : (ls : List Text) → total_length ls ≡ length (joined ls)
unfolding total_length joined
total_length-joined [] = refl
total_length-joined (l ∷ ls) = omega (arith, total_length-joined ls, length-append l (joined ls))

pub total_length-lines : (text : Text) → total_length (split_physical_lines text) ≡ length text
total_length-lines text =
    total_length-joined (split_physical_lines text)
    ∙ ap length (split_physical_lines-AreLines text).0

-- more lines are not shorter
pub total_length_mono :
    (m n : ℕ) (ls : List Text) → m ≤ n → total_length (take m ls) ≤ total_length (take n ls)
unfolding total_length take
total_length_mono zero n ls h = omega arith
total_length_mono (suc m) zero ls h = absurd (omega arith)
total_length_mono (suc m) (suc n) [] h = omega arith
total_length_mono (suc m) (suc n) (l ∷ ls) h = omega (arith, total_length_mono m n ls (omega arith))

pub total_length-le : (n : ℕ) (ls : List Text) → total_length (take n ls) ≤ total_length ls
unfolding total_length take
total_length-le zero ls = omega arith
total_length-le (suc n) [] = omega arith
total_length-le (suc n) (l ∷ ls) = omega (arith, total_length-le n ls)

total_length-whole : (ls : List Text) → total_length (take (length ls) ls) ≡ total_length ls
unfolding total_length take
total_length-whole [] = refl
total_length-whole (l ∷ ls) = omega (arith, total_length-whole ls)

-- lines that are trimmed at one side or both
abbrev pub TrimmedAt : Text → ℕ → ℕ → Bool → Bool → Excerpt → Type 0
TrimmedAt body a b leading trailing y =
    (k : ℕ) × (m : ℕ) × At body k m y
    × (trailing ≡ false → m ≡ b)
    × (leading ≡ false → is_empty y.raw_text ≡ false → k ≡ a)
    × (leading ≡ false → trailing ≡ false → is_empty y.raw_text ≡ true → a ≡ b)

if_false {ℓ} : {A : Type ℓ} (b : Bool) (x y : A) → b ≡ false → (if b then x else y) ≡ y
if_false true x y h = cc
if_false false x y h = refl

-- an excerpt of which nothing is left though all is kept was empty
whole_gone :
    (body : Text) (a b i j : ℕ) (x y : Excerpt)
    → At body a b x
    → y.raw_text ≡ slice x.raw_text i j
    → i ≡ 0
    → j ≡ length x.raw_text
    → is_empty y.raw_text ≡ true
    → a ≡ b
whole_gone body a b i j x y at t from_start to_end out =
    let size = At-length body a b x at in
    let order = at.ordered in
    let none_left : 0 ≡ j - i =
      sym (ap length (is_empty-eq_nil y.raw_text out))
      ∙ ap length t
      ∙ length-slice x.raw_text i j (omega arith) (omega arith) in
    omega arith

pub trim-At :
    (body : Text) (a b : ℕ) (x : Excerpt) (leading trailing : Bool)
    → At body a b x
    → Ensures
        (TrimmedAt body a b leading trailing)
        (trim_excerpt_whitespace_lines x leading trailing)
unfolding trim_excerpt_whitespace_lines slice_excerpt total_length take
trim-At body a b x leading trailing at =
    let lines = split_physical_lines x.raw_text in
    let first = if leading then skip_blank 0 lines else 0 in
    let last = if trailing then drop_blank lines first (length lines) else length lines in
    let i = total_length (take first lines) in
    let j = total_length (take last lines) in
    let size : total_length lines ≡ length x.raw_text = total_length-lines x.raw_text in
    let to_end : trailing ≡ false → j ≡ length x.raw_text = λ e.
      ap (λ n. total_length (take n lines)) (if_false trailing _ (length lines) e)
      ∙ total_length-whole lines
      ∙ size in
    let from_start : leading ≡ false → i ≡ 0 =
      λ e. ap (λ n. total_length (take n lines)) (if_false leading _ 0 e) in
    let gone : (y : Excerpt)
        → y.raw_text ≡ slice x.raw_text i j
        → leading ≡ false
        → trailing ≡ false
        → is_empty y.raw_text ≡ true
        → a ≡ b =
      λ y t e f out. whole_gone body a b i j x y at t (from_start e) (to_end f) out in
    let ends = physical_line_ends x.raw_text in
    Ensures-imp
      (λ y (s, t). (
        s.0,
        s.1,
        s.2,
        λ e. s.3 (to_end e),
        λ e f. s.4 (from_start e) f,
        λ e f out. gone y t e f out,
      ))
      (Ensures-both
        (slice_excerpt_with_line_ends-At body a b i j x ends at
          (omega (arith, total_length-le last lines)))
        (slice_excerpt_with_line_ends-Ensures x i j ends))
