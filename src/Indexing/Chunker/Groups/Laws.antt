-- ===== src/Indexing/Chunker/Groups/Laws.antt =====
-- Cuts between groups.
use omf_retrieval.Indexing.Chunker.Groups.{
  boundaries_from, ceil_token_group_boundary, element, floor_token_group_boundary, token_boundary,
  token_group_boundaries, token_offset_groups,
}
use omf_retrieval.Indexing.Chunker.Tokens.{Span}
use omf_retrieval.Prelude.{
  List, Result, [], arith, get_elem?, if◌then◌else◌, index_error, length, nat_beq, none, ok, raise,
  refl, some, ℕ, ◌-◌, ◌<◌, ◌∷◌, ◌≡◌, ◌≤◌,
}
use omf_retrieval.Prelude.Ensures.{Ensures, Ensures-if, Ensures-imp, Halts, refused, returned}
use omf_retrieval.Prelude.Slices.{bisect_left, bisect_left-le, bisect_right, bisect_right-le}

pub element-Ensures : (l : List ℕ) (i : ℕ) → Ensures (λ x. get_elem? l i ≡ some x) (element l i)
unfolding element
element-Ensures l i =
    elim (get_elem? l i)
      as (λ o.
        Ensures (λ x. o ≡ some x)
          (elim o as (λ _. Result ℕ) [ none ↦ raise index_error | some x ↦ ok x ])) [
            | none ↦ refused index_error tt
            | some x ↦ returned x refl
          ]

pub token_boundary-Halts :
    (offsets : List Span) (index text_length : ℕ) → Halts (token_boundary offsets index text_length)
unfolding token_boundary
token_boundary-Halts offsets index text_length =
    Ensures-if (nat_beq index 0) _ _ (λ e. returned 0 tt)
      λ e.
        Ensures-if (nat_beq index (length offsets)) _ _ (λ e'. returned text_length tt)
          λ e'.
            elim (get_elem? offsets index)
              as (λ o.
                Halts (elim o as (λ _. Result ℕ) [
                  | none ↦ raise index_error
                  | some span ↦ ok span.0
                ])) [ none ↦ refused index_error tt | some span ↦ returned span.0 tt ]

-- the boundaries begin with 0
abbrev pub BeginsAtZero : List ℕ → Type 0
BeginsAtZero [] = ⊥
BeginsAtZero (b ∷ bs) = b ≡ 0

boundaries_from-head : (groups : List (ℕ × ℕ × ℕ)) → BeginsAtZero (boundaries_from 0 groups)
unfolding boundaries_from
boundaries_from-head [] = refl
boundaries_from-head (g ∷ groups) = refl

pub token_group_boundaries-BeginsAtZero :
    (offsets : List Span) → BeginsAtZero (token_group_boundaries offsets)
unfolding token_group_boundaries
token_group_boundaries-BeginsAtZero offsets = boundaries_from-head (token_offset_groups offsets)

-- the place that is read is before that of `bisect_right`
place_lem :
    (b : ℕ) (bs : List ℕ) (index : ℕ)
    → b ≡ 0
    → (if nat_beq (bisect_right (b ∷ bs) index) 0
          then length (b ∷ bs)
          else bisect_right (b ∷ bs) index)
        - 1
      < bisect_right (b ∷ bs) index
unfolding bisect_right
place_lem b bs index h = ground arith

-- the boundary at or below a place, and the one at or above it
pub floor-Ensures :
    (boundaries : List ℕ) (index : ℕ)
    → BeginsAtZero boundaries
    → Ensures (λ b. b ≤ index) (floor_token_group_boundary boundaries index)
unfolding floor_token_group_boundary
floor-Ensures [] index h = absurd h
floor-Ensures (b ∷ bs) index h =
    let place = bisect_right (b ∷ bs) index in
    let before = (if nat_beq place 0 then length (b ∷ bs) else place) - 1 in
    Ensures-imp (λ x e. bisect_right-le (b ∷ bs) index before x (place_lem b bs index h) e)
      (element-Ensures (b ∷ bs) before)

pub ceil-Ensures :
    (boundaries : List ℕ) (index : ℕ)
    → Ensures (λ b. index ≤ b) (ceil_token_group_boundary boundaries index)
unfolding ceil_token_group_boundary
ceil-Ensures boundaries index =
    Ensures-imp (λ x e. bisect_left-le boundaries index x e)
      (element-Ensures boundaries (bisect_left boundaries index))
