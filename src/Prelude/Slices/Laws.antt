-- ===== src/Prelude/Slices/Laws.antt =====
-- Slices of slices, and slices that meet.
use Prim.Native.Nat.{suc, zero, ℕ, ◌+◌, ◌-◌, ◌<◌, ◌≤◌}
use mathlib.Core.List.{List, [], ◌++◌, ◌∷◌}
use mathlib.Core.Logic.{◌≢◌}
use mathlib.Core.Path.{ap, refl, sym, ◌∙◌, ◌≡◌}
use native.Mathlib.Decide.{dec_lt}
use native.Mathlib.Omega.{arith}
use omf_retrieval.Prelude.Lists.{drop, drop-append, length, take, take-append}
use omf_retrieval.Prelude.Slices.{slice}

module _ {ℓ} {A : Type ℓ} where
  take_of_le : (n : ℕ) (xs : List A) → n ≤ length xs → length (take n xs) ≡ n
  unfolding take
  take_of_le zero xs h = refl
  take_of_le (suc n) [] h = absurd (omega arith)
  take_of_le (suc n) (x ∷ xs) h = ap suc (take_of_le n xs (omega arith))

  length-drop : (n : ℕ) (xs : List A) → length (drop n xs) ≡ length xs - n
  unfolding drop
  length-drop zero xs = omega arith
  length-drop (suc n) [] = omega arith
  length-drop (suc n) (x ∷ xs) = omega (arith, length-drop n xs)

  drop-nil : (n : ℕ) → drop {A = A} n [] ≡ []
  unfolding drop
  drop-nil zero = refl
  drop-nil (suc n) = refl

  take-nil : (n : ℕ) → take {A = A} n [] ≡ []
  unfolding take
  take-nil zero = refl
  take-nil (suc n) = refl

  drop-drop : (a i : ℕ) (xs : List A) → drop i (drop a xs) ≡ drop (a + i) xs
  unfolding drop
  drop-drop zero i xs = ap (λ n. drop n xs) (omega arith)
  drop-drop (suc a) i [] = drop-nil i ∙ sym (drop-nil (suc a + i))
  drop-drop (suc a) i (x ∷ xs) =
      let same : suc a + i ≡ suc (a + i) = omega arith in rw same (drop-drop a i xs)

  drop-take : (n i : ℕ) (xs : List A) → drop i (take n xs) ≡ take (n - i) (drop i xs)
  unfolding drop take
  drop-take n zero xs = ap (λ m. take m xs) (omega arith)
  drop-take zero (suc i) xs = let none_left : zero - suc i ≡ 0 = omega arith in rw none_left refl
  drop-take (suc n) (suc i) [] = sym (take-nil (suc n - suc i))
  drop-take (suc n) (suc i) (x ∷ xs) =
      let same : suc n - suc i ≡ n - i = omega arith in rw same (drop-take n i xs)

  take-take : (m n : ℕ) (xs : List A) → m ≤ n → take m (take n xs) ≡ take m xs
  unfolding take
  take-take zero n xs h = refl
  take-take (suc m) zero xs h = absurd (omega arith)
  take-take (suc m) (suc n) [] h = refl
  take-take (suc m) (suc n) (x ∷ xs) h = ap (λ l. x ∷ l) (take-take m n xs (omega arith))

  take-add : (m n : ℕ) (xs : List A) → take (m + n) xs ≡ take m xs ++ take n (drop m xs)
  unfolding take drop
  take-add zero n xs = ap (λ k. take k xs) (omega arith)
  take-add (suc m) n [] = take-nil (suc m + n) ∙ sym (take-nil n)
  take-add (suc m) n (x ∷ xs) =
      let same : suc m + n ≡ suc (m + n) = omega arith in
      rw same (ap (λ l. x ∷ l) (take-add m n xs))

  pub length-slice : (xs : List A) (i j : ℕ) → i ≤ j → j ≤ length xs → length (slice xs i j) ≡ j - i
  unfolding slice
  length-slice xs i j h k = take_of_le (j - i) (drop i xs) (omega (arith, length-drop i xs))

  pub slice_self : (xs : List A) (i : ℕ) → slice xs i i ≡ []
  unfolding slice take
  slice_self xs i = let none_left : i - i ≡ 0 = omega arith in rw none_left refl

  pub slice-slice :
      (xs : List A) (a b i j : ℕ)
      → i ≤ j
      → a + j ≤ b
      → slice (slice xs a b) i j ≡ slice xs (a + i) (a + j)
  unfolding slice
  slice-slice xs a b i j h k =
      ap (take (j - i)) (drop-take (b - a) i (drop a xs))
      ∙ take-take (j - i) (b - a - i) (drop i (drop a xs)) (omega arith)
      ∙ ap (take (j - i)) (drop-drop a i xs)
      ∙ ap (λ n. take n (drop (a + i) xs)) (omega arith)

  pub slice-append :
      (xs : List A) (i j k : ℕ) → i ≤ j → j ≤ k → slice xs i j ++ slice xs j k ≡ slice xs i k
  unfolding slice
  slice-append xs i j k h h' =
      let there : i + (j - i) ≡ j = omega arith in
      let whole : (j - i) + (k - j) ≡ k - i = omega arith in
      ap (λ l. take (j - i) (drop i xs) ++ take (k - j) l)
        (ap (λ n. drop n xs) (sym there) ∙ sym (drop-drop i (j - i) xs))
      ∙ sym (take-add (j - i) (k - j) (drop i xs))
      ∙ ap (λ n. take n (drop i xs)) whole

  -- a slice with something in it does not end where it begins, or before
  pub slice_nonempty : (xs : List A) (i j : ℕ) → slice xs i j ≢ [] → i < j
  unfolding slice take
  slice_nonempty xs i j h = elim (dec_lt i j) [
    | yes p ↦ p
    | no p ↦ let none_left : j - i ≡ 0 = omega arith in absurd (h (rw none_left refl))
  ]

  -- the part in the middle
  pub slice_middle :
      (before part after : List A)
      → slice (before ++ (part ++ after)) (length before) (length before + length part) ≡ part
  unfolding slice
  slice_middle before part after =
      ap (take (length before + length part - length before))
        (drop-append (length before) before (part ++ after) refl)
      ∙ take-append (length before + length part - length before) part after (omega arith)

  pub slice_whole : (xs : List A) → slice xs 0 (length xs) ≡ xs
  unfolding slice take drop
  slice_whole [] = take-nil (0 - 0)
  slice_whole (x ∷ xs) =
      let size : suc (length xs) - 0 ≡ suc (length xs - 0) = omega arith in
      rw size (ap (λ l. x ∷ l) (slice_whole xs))
