-- ===== src/Indexing/Chunker/Window/Ends.antt =====
-- The ends that infrastructure/source/chunker.py probes for a window are in its range, and the search
-- for them ends.
use omf_retrieval.Indexing.Chunker.Groups.{floor_token_group_boundary}
use omf_retrieval.Indexing.Chunker.Groups.Laws.{BeginsAtZero, floor-Ensures}
use omf_retrieval.Indexing.Chunker.Window.{
  add_below, add_end, add_ends, unique_floors, widen, window_centers, window_probe_ends,
  window_probe_limit,
}
use omf_retrieval.Prelude.{
  All, All-append, Bool-cases, List, [], arith, contains, false, if◌then◌else◌, inl, inr, leb,
  length, ltb, nat_beq, nat_eq, not, suc, true, zero, ℕ, ◌&&◌, ◌*◌, ◌++◌, ◌+◌, ◌-◌, ◌<◌, ◌∷◌, ◌≤◌,
}
use omf_retrieval.Prelude.Ensures.{Ensures, Ensures-bind, returned}

-- what `widen` is to keep: every end is in range
abbrev pub InRange : ℕ → ℕ → List ℕ → Type 0
InRange lo hi = All (λ e. (lo ≤ e) × (e ≤ hi))

add_end-InRange :
    (lo hi e : ℕ) (ends : List ℕ) → InRange lo hi ends → InRange lo hi (add_end lo hi e ends)
unfolding add_end
add_end-InRange lo hi e ends h =
    let fresh =
      leb lo e && leb e hi && not (contains ends e) && ltb (length ends) (window_probe_limit - 1) in
    elim (Bool-cases fresh) [
      | inl new ↦ rw new (All-append _ ends (e ∷ []) h ((ground arith, ground arith), tt))
      | inr old ↦ rw old h
    ]

add_below-InRange :
    (lo hi center distance : ℕ) (ends : List ℕ)
    → InRange lo hi ends
    → InRange lo hi (add_below lo hi center distance ends)
unfolding add_below
add_below-InRange lo hi center distance ends h =
    elim (leb distance center)
      as (λ b. InRange lo hi (if b then add_end lo hi (center - distance) ends else ends)) [
        | true ↦ add_end-InRange lo hi (center - distance) ends h
        | false ↦ h
      ]

add_ends-InRange :
    (lo hi : ℕ) (centers ends : List ℕ)
    → InRange lo hi ends
    → InRange lo hi (add_ends lo hi centers ends)
unfolding add_ends
add_ends-InRange lo hi [] ends h = h
add_ends-InRange lo hi (c ∷ centers) ends h =
    add_ends-InRange lo hi centers (add_end lo hi c ends) (add_end-InRange lo hi c ends h)

widen-Ensures :
    (fuel lo estimated hi distance : ℕ) (ends : List ℕ)
    → hi + 1 < distance + fuel
    → 0 < distance
    → 0 < fuel
    → InRange lo hi ends
    → Ensures (InRange lo hi) (widen fuel lo estimated hi distance ends)
unfolding widen
widen-Ensures zero lo estimated hi distance ends f d l h = absurd (omega arith)
widen-Ensures (suc fuel) lo estimated hi distance ends f d l h =
    let more = add_end lo hi (estimated + distance) (add_below lo hi estimated distance ends) in
    let more-InRange : InRange lo hi more =
      add_end-InRange lo hi (estimated + distance) (add_below lo hi estimated distance ends)
        (add_below-InRange lo hi estimated distance ends h) in
    let going = ltb (length ends) (window_probe_limit - 1) && leb distance hi in
    let done =
      nat_beq (length more) (length ends)
      && ltb estimated (lo + distance)
      && ltb hi (estimated + distance) in
    elim (Bool-cases going) [
      | inl on ↦ elim (Bool-cases done) [
        | inl out ↦ rw (on, out, widen) (returned more more-InRange)
        | inr again ↦
            rw (on, again, widen)
              (widen-Ensures fuel lo estimated hi (distance * 2) more (ground arith) (ground arith)
                (ground arith) more-InRange)
      ]
      | inr off ↦ rw (off, widen) (returned ends h)
    ]

pub window_probe_ends-Ensures :
    (lo estimated hi : ℕ) → Ensures (InRange lo hi) (window_probe_ends lo estimated hi)
unfolding window_probe_ends
window_probe_ends-Ensures lo estimated hi =
    let centers = window_centers lo estimated hi in
    widen-Ensures (hi + 1) lo estimated hi 1 (add_ends lo hi centers []) (omega arith) (omega arith)
      (omega arith) (add_ends-InRange lo hi centers [] tt)

-- a boundary below an end is not above the last one
pub unique_floors-Ensures :
    (boundaries seen ends : List ℕ) (hi : ℕ)
    → BeginsAtZero boundaries
    → All (λ e. e ≤ hi) seen
    → All (λ e. e ≤ hi) ends
    → Ensures (All (λ e. e ≤ hi)) (unique_floors boundaries seen ends)
unfolding unique_floors
unique_floors-Ensures boundaries seen [] hi z s h = returned seen s
unique_floors-Ensures boundaries seen (e ∷ ends) hi z s h =
    Ensures-bind (floor_token_group_boundary boundaries e) _ (floor-Ensures boundaries e z)
      λ floor q le.
        unique_floors-Ensures boundaries (if contains seen floor then seen else seen ++ floor ∷ [])
          ends hi z
          (elim (contains seen floor)
            as (λ b. All (λ e. e ≤ hi) (if b then seen else seen ++ floor ∷ [])) [
              | true ↦ s
              | false ↦ All-append _ seen (floor ∷ []) s (omega arith, tt)
            ])
          h.1
