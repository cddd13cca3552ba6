-- ===== src/Indexing/Chunker/Excerpt/Laws.antt =====
-- The text of a slice or a join.
use omf_retrieval.Indexing.Chunker.Excerpt.{
  Excerpt, cut_excerpt, empty_at_end, excerpt_line_numbers, first_number, last_number,
  physical_line_ends, slice_excerpt, slice_excerpt_with_line_ends, trim_excerpt_whitespace_lines,
}
use omf_retrieval.Prelude.{Bool, List, [], index_error, refl, sym, true, ℕ, ◌+◌, ◌∷◌, ◌≡◌}
use omf_retrieval.Prelude.Ensures.{
  Ensures, Ensures-bind, Ensures-if, Ensures-imp, Halts, refused, returned,
}
use omf_retrieval.Prelude.Slices.{bisect_left, bisect_right, slice}
use omf_retrieval.Prelude.Text.{is_empty}

pub first_number-Halts : (l : List ℕ) → Halts (first_number l)
unfolding first_number
first_number-Halts [] = refused index_error tt
first_number-Halts (n ∷ l) = returned n tt

pub last_number-Halts : (l : List ℕ) → Halts (last_number l)
unfolding last_number
last_number-Halts [] = refused index_error tt
last_number-Halts (n ∷ []) = returned n tt
last_number-Halts (n ∷ m ∷ l) = last_number-Halts (m ∷ l)

pub is_empty-eq_nil {ℓ} : {A : Type ℓ} (l : List A) → is_empty l ≡ true → l ≡ []
is_empty-eq_nil [] h = refl
is_empty-eq_nil (a ∷ l) h = cc

cut_excerpt-Ensures :
    (x : Excerpt) (i j : ℕ) (numbers : List ℕ)
    → Ensures (λ y. y.raw_text ≡ slice x.raw_text i j) (cut_excerpt x i j numbers)
unfolding cut_excerpt
cut_excerpt-Ensures x i j numbers =
    Ensures-bind (first_number numbers) _ (first_number-Halts numbers) λ line_start q h.
      Ensures-bind (last_number numbers) _ (last_number-Halts numbers)
        λ line_end q' h'. returned _ refl

-- the text of a slice is the slice of the text
pub slice_excerpt_with_line_ends-Ensures :
    (x : Excerpt) (i j : ℕ) (ends : List ℕ)
    → Ensures (λ y. y.raw_text ≡ slice x.raw_text i j) (slice_excerpt_with_line_ends x i j ends)
unfolding slice_excerpt_with_line_ends empty_at_end
slice_excerpt_with_line_ends-Ensures x i j ends =
    let numbers = slice (excerpt_line_numbers x) (bisect_right ends i) (bisect_left ends j + 1) in
    Ensures-if (is_empty (slice x.raw_text i j)) _ _
      (λ none_left. returned (empty_at_end x) (sym (is_empty-eq_nil _ none_left)))
      (λ some_left. cut_excerpt-Ensures x i j numbers)

pub slice_excerpt-Ensures :
    (x : Excerpt) (i j : ℕ) → Ensures (λ y. y.raw_text ≡ slice x.raw_text i j) (slice_excerpt x i j)
unfolding slice_excerpt
slice_excerpt-Ensures x i j =
    slice_excerpt_with_line_ends-Ensures x i j (physical_line_ends x.raw_text)

pub slice_excerpt-Halts : (x : Excerpt) (i j : ℕ) → Halts (slice_excerpt x i j)
slice_excerpt-Halts x i j = Ensures-imp (λ y h. tt) (slice_excerpt-Ensures x i j)

pub trim-Halts :
    (x : Excerpt) (leading trailing : Bool)
    → Halts (trim_excerpt_whitespace_lines x leading trailing)
unfolding trim_excerpt_whitespace_lines
trim-Halts x leading trailing = slice_excerpt-Halts x _ _
