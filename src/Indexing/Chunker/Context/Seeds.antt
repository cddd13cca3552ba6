-- ===== src/Indexing/Chunker/Context/Seeds.antt =====
-- The blocks that share a line with a match, infrastructure/source/chunker.py, are a window, and where
-- the blocks meet it holds the lines of the match.
use omf_retrieval.Indexing.Chunker.Context.{Seed}
use omf_retrieval.Indexing.Chunker.Context.Grow.{IsSeed}
use omf_retrieval.Indexing.Chunker.Context.Parts.{seed_indices}
use omf_retrieval.Indexing.Chunker.Context.Select.{Match, last_index, seed_of}
use omf_retrieval.Indexing.Structure.{ParsedBlock, first_line, last_line}
use omf_retrieval.Prelude.{
  Bool-cases, List, Result, [], ap, arith, inl, inr, leb, length, ok, raise, refl, value_error, ℕ,
  ◌&&◌, ◌+◌, ◌<◌, ◌∷◌, ◌≡◌, ◌≤◌, ◌⊎◌,
}
use omf_retrieval.Prelude.Ensures.{Ensures, refused, returned}

seeds-range :
    (start_line end_line : ℕ) (bs : List ParsedBlock) (d i : ℕ)
    → d ≤ i
    → (d ≤ last_index d (seed_indices start_line end_line i bs))
      × ((last_index d (seed_indices start_line end_line i bs) ≡ d)
          ⊎ (last_index d (seed_indices start_line end_line i bs) < i + length bs))
unfolding seed_indices
seeds-range start_line end_line [] d i h = (omega arith, inl refl)
seeds-range start_line end_line (b ∷ bs) d i h =
    elim (Bool-cases (leb (first_line b) end_line && leb start_line (last_line b))) [
      | inl on ↦
          let more = seeds-range start_line end_line bs i (i + 1) (omega arith) in
          rw on (
            omega (arith, more.0),
            inr (elim more.1 [ inl same ↦ omega (arith, same) | inr less ↦ omega (arith, less) ]),
          )
      | inr off ↦
          let more = seeds-range start_line end_line bs d (i + 1) (omega arith) in
          rw off
            (more.0, elim more.1 [ inl same ↦ inl same | inr less ↦ inr (omega (arith, less)) ])
    ]

unfoldable pub head_or : ℕ → List ℕ → ℕ
head_or d [] = d
head_or d (n ∷ l) = n

tail_of : List ℕ → List ℕ
tail_of [] = []
tail_of (n ∷ l) = l

seeds-window :
    (start_line end_line : ℕ) (bs : List ParsedBlock) (i j : ℕ) (l : List ℕ)
    → seed_indices start_line end_line i bs ≡ j ∷ l
    → (j ≤ last_index j l) × (last_index j l < i + length bs)
unfolding seed_indices head_or tail_of
seeds-window start_line end_line [] i j l e = cc
seeds-window start_line end_line (b ∷ bs) i j l e =
    elim (Bool-cases (leb (first_line b) end_line && leb start_line (last_line b))) [
      | inl on ↦
          let same : i ∷ seed_indices start_line end_line (i + 1) bs ≡ j ∷ l = rw on at e in
          let more = seeds-range start_line end_line bs i (i + 1) (omega arith) in
          let head : i ≡ j = ap (head_or i) same in
          let tail : seed_indices start_line end_line (i + 1) bs ≡ l = ap tail_of same in
          rw (← head, ← tail)
            (
              more.0,
              elim more.1 [ inl alone ↦ omega (arith, alone) | inr less ↦ omega (arith, less) ],
            )
      | inr off ↦
          let more = seeds-window start_line end_line bs (i + 1) j l (rw off at e) in
          (more.0, omega (arith, more.1))
    ]

-- what is made of the indices
pub record IsSeedOf (blocks : List ParsedBlock) (m : Match) (seed : Seed) : Type 0 where
  pub window : IsSeed seed
  pub rest : List ℕ
  pub found : seed_indices m.line_start m.line_end 0 blocks ≡ seed.first ∷ rest
  pub ends : seed.last ≡ last_index seed.first rest

pub seed_of-IsSeedOf :
    (blocks : List ParsedBlock) (m : Match) → Ensures (IsSeedOf blocks m) (seed_of blocks m)
unfolding seed_of
seed_of-IsSeedOf blocks m =
    elim (seed_indices m.line_start m.line_end 0 blocks)
        as (λ l.
          seed_indices m.line_start m.line_end 0 blocks ≡ l
          → Ensures (IsSeedOf blocks m) (elim l as (λ _. Result Seed) [
            | [] ↦ raise value_error
            | i ∷ l' ↦ ok (record { first = i; last = last_index i l'; count = length blocks })
          ])) [
            | [] ↦ λ e. refused value_error tt
            | i ∷ l ↦ λ e.
                let (low, high) = seeds-window m.line_start m.line_end blocks 0 i l e in
                returned _
                  (record { window = (low, omega (arith, high)); rest = l; found = e; ends = refl })
          ]
      refl
