-- ===== src/Search/Rrf/Cover.antt =====
-- What is in a fusion's result (application/search/rrf.py): each identifier of the two lanes once,
-- with the candidate that has it.
use mathlib.Core.List.Perm
use mathlib.Core.Logic.Or
use mathlib.Core.HLevel.{⊥_prop}
use mathlib.Core.List.{
  Mem, Nodup, Nodup-cons, Nodup-nil, exists_of_mem-map, mem-cons, mem-cons_of_mem, mem-cons_self,
  mem-map_of_mem, not-mem-nil,
}
use mathlib.Core.Logic.{∥∥₁_map, ∥∥₁_prop}
use mathlib.Core.Path.{subst}
use omf_retrieval.Prelude.{
  All, Bool-cases, List, Option, [], ap, arith, contains, false, get_elem?, inl, inr, map, nat_beq,
  nat_eq, ok, refl, some, suc, sym, true, zero, ℕ, ◌++◌, ◌+◌, ◌∙◌, ◌∷◌, ◌≡◌, ◌≢◌,
}
use omf_retrieval.Prelude.Dict.{IsDistinct}
use omf_retrieval.Prelude.Floats.{Float, Floats}
use omf_retrieval.Prelude.Sort.{sorted-perm}
use omf_retrieval.Search.Ports.{Candidate, Uuid}
use omf_retrieval.Search.Rrf.{FusedCandidate, ranks_before, reciprocal_rank_fusion}
use omf_retrieval.Search.Rrf.Laws.{fuse, fusion, rrf-eq_ok}
use omf_retrieval.Search.Rrf.Spec.{IsConsistent, contains-append, fresh, last_rank}

pub Candidate-set : IsSet Candidate
Candidate-set = hlevel

pub Agrees-elim :
    (c d : Candidate) (cs : List Candidate)
    → All (λ x. d.chunk_id ≡ x.chunk_id → d ≡ x) cs
    → Mem c cs
    → d.chunk_id ≡ c.chunk_id
    → d ≡ c
Agrees-elim c d [] a m e = absurd (not-mem-nil m)
Agrees-elim c d (x ∷ cs) a m e =
    Or.elim (Candidate-set d c) (mem-cons.0 m)
      (λ p. a.0 (e ∙ ap (λ (z : Candidate). z.chunk_id) p) ∙ sym p)
      (λ q. Agrees-elim c d cs a.1 q e)

-- every kept candidate is one of the list, with an identifier that was not seen
pub fresh-sound :
    (c : Candidate) (cs : List Candidate) (seen : List Uuid) → Mem c (fresh seen cs) → Mem c cs
unfolding fresh
fresh-sound c [] seen m = m
fresh-sound c (d ∷ cs) seen m = elim (Bool-cases (contains seen d.chunk_id)) [
  | inl e ↦ mem-cons_of_mem d (fresh-sound c cs seen (rw (e, fresh) at m))
  | inr e ↦
      Or.elim ∥∥₁_prop (mem-cons.0 (rw (e, fresh) at m)) (λ p. rw p mem-cons_self)
        (λ q. mem-cons_of_mem d (fresh-sound c cs (seen ++ d.chunk_id ∷ []) q))
]

-- every candidate of a consistent list whose identifier was not seen is kept
pub fresh-complete :
    (c : Candidate) (cs : List Candidate) (seen : List Uuid)
    → IsConsistent cs
    → Mem c cs
    → contains seen c.chunk_id ≡ false
    → Mem c (fresh seen cs)
unfolding fresh
fresh-complete c [] seen k m n = m
fresh-complete c (d ∷ cs) seen k m n = elim (Bool-cases (contains seen d.chunk_id)) [
  | inl e ↦
      rw (e, fresh)
        (Or.elim ∥∥₁_prop (mem-cons.0 m) (λ p. absurd (ground arith))
          (λ q. fresh-complete c cs seen k.1 q n))
  | inr e ↦
      rw (e, fresh)
        (Or.elim ∥∥₁_prop (mem-cons.0 m) (λ p. rw p mem-cons_self)
          (λ q. elim (Bool-cases (nat_beq d.chunk_id c.chunk_id)) [
            | inl same ↦ rw (Agrees-elim c d cs k.0 q (ground arith)) mem-cons_self
            | inr other ↦ mem-cons_of_mem d (
                fresh-complete c cs (seen ++ d.chunk_id ∷ []) k.1 q
                  (contains-append seen d.chunk_id c.chunk_id ∙ ground arith))
          ]))
]

abbrev pub ids : List Candidate → List Uuid
ids = map (λ c. c.chunk_id)

fresh-unseen :
    (id : Uuid) (cs : List Candidate) (seen : List Uuid)
    → contains seen id ≡ true
    → ¬ Mem id (ids (fresh seen cs))
unfolding fresh
fresh-unseen id [] seen h = not-mem-nil
fresh-unseen id (d ∷ cs) seen h = elim (Bool-cases (contains seen d.chunk_id)) [
  | inl e ↦ rw (e, fresh) (fresh-unseen id cs seen h)
  | inr e ↦
      rw (e, fresh)
        (λ m.
          Or.elim ⊥_prop (mem-cons.0 m) (λ p. ground arith)
            (fresh-unseen id cs (seen ++ d.chunk_id ∷ [])
              (contains-append seen d.chunk_id id ∙ ground arith)))
]

-- no identifier is kept twice
pub fresh-Nodup : (cs : List Candidate) (seen : List Uuid) → Nodup (ids (fresh seen cs))
unfolding fresh
fresh-Nodup [] seen = Nodup-nil
fresh-Nodup (d ∷ cs) seen = elim (Bool-cases (contains seen d.chunk_id)) [
  | inl e ↦ rw (e, fresh) (fresh-Nodup cs seen)
  | inr e ↦
      rw (e, fresh)
        (Nodup-cons.1 (
          fresh-unseen d.chunk_id cs (seen ++ d.chunk_id ∷ [])
              (contains-append seen d.chunk_id d.chunk_id ∙ ground arith),
          fresh-Nodup cs (seen ++ d.chunk_id ∷ []),
        ))
]

-- An identifier that a lane does not hold keeps what was found.
pub last_rank_absent :
    (id n : ℕ) (found : Option ℕ) (lane : List Candidate)
    → All (λ j. id ≢ j) (ids lane)
    → last_rank id n found lane ≡ found
unfolding last_rank
last_rank_absent id n found [] a = refl
last_rank_absent id n found (c ∷ lane) a = last_rank_absent id (n + 1) _ lane a.1 ∙ ground arith

-- A lane in which no identifier occurs twice ranks each candidate by its place, from 1.
pub rank_in-get_elem? :
    (lane : List Candidate) (n i : ℕ) (found : Option ℕ) (c : Candidate)
    → IsDistinct (ids lane)
    → get_elem? lane i ≡ some c
    → last_rank c.chunk_id n found lane ≡ some (n + i)
unfolding last_rank
rank_in-get_elem? [] n i found c d h = cc
rank_in-get_elem? (x ∷ lane) n zero found c d h =
    let e : x ≡ c = cc in
    last_rank_absent c.chunk_id (n + 1) _ lane
      (subst (λ (z : Candidate). All (λ j. z.chunk_id ≢ j) (ids lane)) e d.0)
    ∙ ground arith
rank_in-get_elem? (x ∷ lane) n (suc i) found c d h =
    rank_in-get_elem? lane (n + 1) i _ c d.1 h ∙ ground arith

module _ ⦃fl : Floats⦄ (k : ℕ) (keyword_weight vector_weight : Float)
    (keyword vector : List Candidate) where
  abbrev pub fuse_lanes : Candidate → FusedCandidate
  fuse_lanes = fuse k keyword_weight vector_weight keyword vector

  abbrev pub Covers : List FusedCandidate → Type 0
  Covers out =
      ((c : Candidate) → Mem c (keyword ++ vector) → Mem (fuse_lanes c) out)
      × ((i : FusedCandidate)
          → Mem i out
          → ∥ ((c : Candidate) × Mem c (keyword ++ vector) × (fuse_lanes c ≡ i)) ∥₁)
      × Nodup (map (λ i. i.candidate.chunk_id) out)

  ids-fuse : (cs : List Candidate) → map (λ i. i.candidate.chunk_id) (map fuse_lanes cs) ≡ ids cs
  unfolding fuse
  ids-fuse [] = refl
  ids-fuse (c ∷ cs) = ap (◌∷◌ c.chunk_id) (ids-fuse cs)

  fusion-Covers :
      IsConsistent (keyword ++ vector)
      → Covers (fusion k keyword_weight vector_weight keyword vector)
  unfolding fusion contains
  fusion-Covers consistent =
      let kept = fresh [] (keyword ++ vector) in
      let perm = sorted-perm ranks_before (map fuse_lanes kept) in
      (
        λ c m.
            (Perm.mem_iff perm).1 (
              mem-map_of_mem fuse_lanes
                (fresh-complete c (keyword ++ vector) [] consistent m refl)),
        λ i m.
            ∥∥₁_map (exists_of_mem-map ((Perm.mem_iff perm).0 m))
              (λ (c, n, e). (c, fresh-sound c (keyword ++ vector) [] n, e)),
        (Perm.Nodup-iff (Perm.map (λ i. i.candidate.chunk_id) perm)).1
            (rw ids-fuse (fresh-Nodup (keyword ++ vector) [])),
      )

  -- A successful fusion holds each candidate of the two lanes, with its two ranks and its score;
  -- nothing but these; and no identifier twice.
  pub rrf_cover :
      {out : List FusedCandidate}
      → reciprocal_rank_fusion k keyword_weight vector_weight keyword vector ≡ ok out
      → Covers out
  rrf_cover {out} h =
      let (_, consistent, same) = rrf-eq_ok k keyword_weight vector_weight keyword vector h in
      subst Covers same (fusion-Covers consistent)
