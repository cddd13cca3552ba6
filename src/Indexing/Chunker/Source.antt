-- ===== src/Indexing/Chunker/Source.antt =====
-- Excerpts that are exact slices of a text: where they come from, and how they meet.
pub mod Normal
pub mod Packing
pub mod Lines
pub mod Units
pub mod Atomic
pub mod Section
pub mod Drafts
use mathlib.Core.Path.{ap₂, subst}
use omf_retrieval.Indexing.Chunker.Excerpt.{
  Excerpt, cut_excerpt, empty_at_end, excerpt_line_numbers, first_number, join_excerpts,
  last_number, shifted, slice_excerpt_with_line_ends,
}
use omf_retrieval.Indexing.Chunker.Excerpt.Laws.{
  first_number-Halts, is_empty-eq_nil, last_number-Halts,
}
use omf_retrieval.Prelude.{
  Bool-cases, List, [], ap, arith, false, inl, inr, length, refl, some, sym, true, true-ne-false, ℕ,
  ◌++◌, ◌+◌, ◌-◌, ◌∙◌, ◌∷◌, ◌≡◌, ◌≤◌,
}
use omf_retrieval.Prelude.Ensures.{Ensures, Ensures-bind, Ensures-if, Ensures-imp, returned}
use omf_retrieval.Prelude.Slices.{bisect_left, bisect_right, slice}
use omf_retrieval.Prelude.Slices.Laws.{
  length-slice, slice-append, slice-slice, slice_nonempty, slice_self,
}
use omf_retrieval.Prelude.Text.{Text, is_empty}

-- the excerpt is the text from one character of the body to another
pub record At (body : Text) (i j : ℕ) (x : Excerpt) : Type 0 where
  pub starts : x.source_start ≡ some i
  pub ends : x.source_end ≡ some j
  pub ordered : i ≤ j
  pub within : j ≤ length body
  pub text : x.raw_text ≡ slice body i j

abbrev pub IsSource : Text → Excerpt → Type 0
IsSource body x = (i : ℕ) × (j : ℕ) × At body i j x

-- excerpts of which each begins where the one before it ends
abbrev pub Chain : Text → ℕ → List Excerpt → ℕ → Type 0
Chain body i [] k = i ≡ k
Chain body i (x ∷ xs) k = (j : ℕ) × At body i j x × Chain body j xs k

pub At-length : (body : Text) (i j : ℕ) (x : Excerpt) → At body i j x → length x.raw_text ≡ j - i
At-length body i j x a = ap length a.text ∙ length-slice body i j a.ordered a.within

-- what is empty ends where it begins
pub At-empty :
    (body : Text) (i j : ℕ) (x : Excerpt) → At body i j x → is_empty x.raw_text ≡ true → i ≡ j
At-empty body i j x a e =
    let order = a.ordered in
    let none_left : 0 ≡ j - i =
      sym (ap length (is_empty-eq_nil x.raw_text e)) ∙ At-length body i j x a in
    omega arith

pub Chain-append :
    (body : Text) (i j k : ℕ) (xs ys : List Excerpt)
    → Chain body i xs j
    → Chain body j ys k
    → Chain body i (xs ++ ys) k
Chain-append body i j k [] ys e c = subst (λ n. Chain body n ys k) (sym e) c
Chain-append body i j k (x ∷ xs) ys (m, a, c) d = (m, a, Chain-append body m j k xs ys c d)

-- two excerpts that meet, put together
pub join-At :
    (body : Text) (i j k : ℕ) (x y : Excerpt)
    → At body i j x
    → At body j k y
    → At body i k (join_excerpts x y)
unfolding join_excerpts
join-At body i j k x y a b = elim (Bool-cases (is_empty x.raw_text)) [
  | inl e ↦ rw e (subst (λ n. At body n k y) (sym (At-empty body i j x a e)) b)
  | inr e ↦ elim (Bool-cases (is_empty y.raw_text)) [
    | inl f ↦ rw (e, f) (subst (λ n. At body i n x) (At-empty body j k y b f) a)
    | inr f ↦
        let first = a.ordered in
        let second = b.ordered in
        rw (e, f)
          (record {
            starts = a.starts;
            ends = b.ends;
            ordered = omega arith;
            within = b.within;
            text = ap₂ (λ s t. s ++ t) a.text b.text ∙ slice-append body i j k first second;
          })
  ]
]

-- A slice of a slice, up to its own end if it is taken to the end. If it is taken from the beginning
-- and something is in it, it begins there.
abbrev pub SliceAt : Text → ℕ → ℕ → ℕ → ℕ → Excerpt → Excerpt → Type 0
SliceAt body a b i j x y =
    (k : ℕ) × (m : ℕ) × At body k m y
    × (j ≡ length x.raw_text → m ≡ b)
    × (i ≡ 0 → is_empty y.raw_text ≡ false → k ≡ a)

cut_excerpt-At :
    (body : Text) (a b i j : ℕ) (x : Excerpt) (numbers : List ℕ)
    → At body a b x
    → i ≤ j
    → j ≤ length x.raw_text
    → Ensures (At body (a + i) (a + j)) (cut_excerpt x i j numbers)
unfolding cut_excerpt
cut_excerpt-At body a b i j x numbers at h k =
    let size = At-length body a b x at in
    let order = at.ordered in
    let within = at.within in
    Ensures-bind (first_number numbers) _ (first_number-Halts numbers) λ line_start q u.
      Ensures-bind (last_number numbers) _ (last_number-Halts numbers) λ line_end q' u'.
        returned _ (record {
          starts = ap (λ o. shifted o i) at.starts;
          ends = ap (λ o. shifted o j) at.starts;
          ordered = omega arith;
          within = omega arith;
          text = ap (λ t. slice t i j) at.text ∙ slice-slice body a b i j h (omega arith);
        })

pub slice_excerpt_with_line_ends-At :
    (body : Text) (a b i j : ℕ) (x : Excerpt) (ends : List ℕ)
    → At body a b x
    → j ≤ length x.raw_text
    → Ensures (SliceAt body a b i j x) (slice_excerpt_with_line_ends x i j ends)
unfolding slice_excerpt_with_line_ends empty_at_end
slice_excerpt_with_line_ends-At body a b i j x ends at h =
    let numbers = slice (excerpt_line_numbers x) (bisect_right ends i) (bisect_left ends j + 1) in
    let size = At-length body a b x at in
    let order = at.ordered in
    Ensures-if (is_empty (slice x.raw_text i j)) _ _
      (λ none_left. returned (empty_at_end x) (
        b,
        b,
        record {
          starts = at.ends;
          ends = at.ends;
          ordered = omega arith;
          within = at.within;
          text = sym (slice_self body b);
        },
        λ e. refl,
        λ e f. absurd (true-ne-false f),
      ))
      (λ some_left.
        Ensures-imp (λ y c. (a + i, a + j, c, λ e. omega arith, λ e f. omega arith))
          (cut_excerpt-At body a b i j x numbers at (some_between x i j some_left) h))
  where
    some_between : (x : Excerpt) (i j : ℕ) → is_empty (slice x.raw_text i j) ≡ false → i ≤ j
    some_between x i j e =
        let before = slice_nonempty x.raw_text i j (λ p. true-ne-false (sym (ap is_empty p) ∙ e)) in
        omega arith
