-- ===== src/Indexing/Chunker/Context/Grow.antt =====
-- The search of infrastructure/source/chunker.py for a window of blocks ends, with windows around the
-- blocks of the match.
use omf_retrieval.Indexing.Chunker.Context.{
  Seed, Side, Window, add_index, block_context_probe_indices, block_expansion_windows,
  context_base_probes, grown, left_side, right_side, sorted_sides, widen_indices, windows_from,
}
use omf_retrieval.Prelude.{
  &&-split, All, Bool-cases, List, Result, [], arith, inl, inr, leb, leb→le, length, ltb, ltb→lt,
  ok, suc, zero, ℕ, ◌&&◌, ◌*◌, ◌+◌, ◌-◌, ◌<◌, ◌>>=◌, ◌∷◌, ◌≡◌, ◌≤◌,
}
use omf_retrieval.Prelude.Ensures.{Ensures, Ensures-bind, Halts, returned}
use omf_retrieval.Prelude.Slices.{bisect_right}

-- a window around the seed
abbrev pub Around : Seed → Window → Type 0
Around seed w = (w.0 ≤ seed.first) × ((seed.last ≤ w.1) × (w.1 < seed.count))

abbrev pub IsSeed : Seed → Type 0
IsSeed seed = (seed.first ≤ seed.last) × (seed.last < seed.count)

-- the number of blocks outside a window
abbrev pub room : Seed → Window → ℕ
room seed w = w.0 + (seed.count - (w.1 + 1))

abbrev pub CanGrow : Seed → Window → Side → Type 0
CanGrow seed w left_side = 0 < w.0
CanGrow seed w right_side = w.1 + 1 < seed.count

pub sorted_sides-CanGrow : (seed : Seed) (w : Window) → All (CanGrow seed w) (sorted_sides seed w)
unfolding sorted_sides
sorted_sides-CanGrow seed (left, right) = elim (Bool-cases (ltb 0 left)) [
  | inl l ↦ elim (Bool-cases (ltb (right + 1) seed.count)) [
    | inl r ↦ elim (Bool-cases (leb (seed.first - left) (right - seed.last))) [
      | inl e ↦ rw (l, r, e) (ltb→lt 0 left l, (ltb→lt (right + 1) seed.count r, tt))
      | inr e ↦ rw (l, r, e) (ltb→lt (right + 1) seed.count r, (ltb→lt 0 left l, tt))
    ]
    | inr r ↦ rw (l, r) (ltb→lt 0 left l, tt)
  ]
  | inr l ↦ elim (Bool-cases (ltb (right + 1) seed.count)) [
    | inl r ↦ rw (l, r) (ltb→lt (right + 1) seed.count r, tt)
    | inr r ↦ rw (l, r) tt
  ]
]

pub grown-Around :
    (seed : Seed) (w : Window) (side : Side)
    → Around seed w
    → CanGrow seed w side
    → Around seed (grown side w) × (room seed (grown side w) < room seed w)
unfolding grown
grown-Around seed (left, right) left_side h k =
    ((omega (arith, h.0), (h.1.0, h.1.1)), omega (arith, h.1.1))
grown-Around seed (left, right) right_side h k =
    ((h.0, (omega (arith, h.1.0), k)), omega (arith, h.1.1))

windows_from-Around :
    (fuel : ℕ) (seed : Seed) (w : Window)
    → Around seed w
    → room seed w < fuel
    → Ensures (All (Around seed)) (windows_from fuel seed w)
unfolding windows_from
windows_from-Around zero seed w h k = absurd (omega arith)
windows_from-Around (suc fuel) seed w h k =
    elim (sorted_sides seed w)
        as (λ sides.
          All (CanGrow seed w) sides
          → Ensures (All (Around seed)) (elim sides as (λ _. Result (List Window)) [
            | [] ↦ ok (w ∷ [])
            | side ∷ sides' ↦ windows_from fuel seed (grown side w) >>= λ rest. ok (w ∷ rest)
          ])) [
            | [] ↦ λ can. returned (w ∷ []) (h, tt)
            | side ∷ sides' ↦ λ can.
                let (h', less) = grown-Around seed w side h can.0 in
                Ensures-bind (windows_from fuel seed (grown side w)) _
                  (windows_from-Around fuel seed (grown side w) h' (omega arith))
                  λ rest q more. returned (w ∷ rest) (h, more)
          ]
      (sorted_sides-CanGrow seed w)

pub seed-Around : (seed : Seed) → IsSeed seed → Around seed (seed.first, seed.last)
seed-Around seed h = (omega arith, (omega arith, h.1))

pub block_expansion_windows-Around :
    (seed : Seed) → IsSeed seed → Ensures (All (Around seed)) (block_expansion_windows seed)
unfolding block_expansion_windows
block_expansion_windows-Around seed h =
    windows_from-Around (seed.count + 1) seed (seed.first, seed.last) (seed-Around seed h)
      (omega (arith, h.0, h.1))

widen_indices-Halts :
    (fuel last estimated distance : ℕ) (indices : List ℕ)
    → 1 ≤ distance
    → last < distance + fuel
    → Halts (widen_indices (suc fuel) last estimated distance indices)
unfolding widen_indices
widen_indices-Halts zero last estimated distance indices h k =
    elim (Bool-cases (ltb (length indices) (context_base_probes - 3) && leb distance last)) [
      | inr done ↦ rw (done, widen_indices) (returned indices tt)
      | inl more ↦ absurd (omega (arith, leb→le distance last (&&-split _ _ more).1))
    ]
widen_indices-Halts (suc fuel) last estimated distance indices h k =
    elim (Bool-cases (ltb (length indices) (context_base_probes - 3) && leb distance last)) [
      | inr done ↦ rw (done, widen_indices) (returned indices tt)
      | inl more ↦
          rw (more, widen_indices)
            (widen_indices-Halts fuel last estimated (distance * 2) _ (omega arith) (omega arith))
    ]

pub block_context_probe_indices-Halts :
    (counts : List ℕ) (limit : ℕ) → Halts (block_context_probe_indices counts limit)
unfolding block_context_probe_indices
block_context_probe_indices-Halts counts limit =
    let last = length counts - 1 in
    let estimated = bisect_right counts limit - 1 in
    let one_more : last + 1 ≡ suc last = omega arith in
    let widened : Halts (widen_indices (last + 1) last estimated 1 (add_index last estimated [])) =
      rw one_more (widen_indices-Halts last last estimated 1 _ (omega arith) (omega arith)) in
    Ensures-bind (widen_indices (last + 1) last estimated 1 (add_index last estimated [])) _ widened
      λ indices q h. returned _ tt
