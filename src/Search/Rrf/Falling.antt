-- ===== src/Search/Rrf/Falling.antt =====
-- The order of a fusion's result and that the fusion returns (application/search/rrf.py).
use mathlib.Core.List.{Perm}
use mathlib.Core.Path.{subst}
use omf_retrieval.Prelude.{
  All, AllPairs, Bool-cases, List, [], arith, contains, false, inl, inr, map, nat_eq, ok, sym, true,
  ℕ, ◌++◌, ◌<◌, ◌∙◌, ◌∷◌, ◌≡◌, ◌≢◌,
}
use omf_retrieval.Prelude.Floats.{Float, Floats, Nonneg}
use omf_retrieval.Prelude.Sort.{IsSorted, sorted-AllPairs}
use omf_retrieval.Search.Ports.{Candidate, Uuid}
use omf_retrieval.Search.Rrf.{FusedCandidate, is_policy, ranks_before, reciprocal_rank_fusion}
use omf_retrieval.Search.Rrf.Laws.{HasFit, fuse, fusion, rrf-eq_ok, rrf_returns}
use omf_retrieval.Search.Rrf.Order.{HasNonneg, fusion-IsSorted, fusion-perm, items_of}
use omf_retrieval.Search.Rrf.Spec.{IsConsistent, contains-append, fresh}

module _ ⦃fl : Floats⦄ where
  -- `a` may stand before `b`: it scores no less, and has the smaller identifier if it scores no more
  abbrev pub Precedes : FusedCandidate → FusedCandidate → Type 0
  Precedes a b =
      (fl.le b.score a.score ≡ true)
      × (fl.le a.score b.score ≡ true → a.candidate.chunk_id < b.candidate.chunk_id)

  -- falling scores, and rising identifiers within a score
  abbrev pub IsFalling : List FusedCandidate → Type 0
  IsFalling = AllPairs Precedes

  abbrev OtherId : FusedCandidate → FusedCandidate → Type 0
  OtherId a b = a.candidate.chunk_id ≢ b.candidate.chunk_id

  ranks_before-Precedes :
      (a b : FusedCandidate)
      → HasNonneg a
      → HasNonneg b
      → OtherId a b
      → ranks_before b a ≡ false
      → Precedes a b
  unfolding ranks_before
  ranks_before-Precedes a b p q n h = (
    ground (arith, fl.le_total a.score b.score, fl.le_total b.score a.score),
    λ e. ground (arith, fl.le_total a.score b.score, fl.le_total b.score a.score),
  )

  best_first :
      (a : FusedCandidate) (l : List FusedCandidate)
      → HasNonneg a
      → All HasNonneg l
      → All (OtherId a) l
      → All (λ b. ranks_before b a ≡ false) l
      → All (Precedes a) l
  best_first a [] p q n h = tt
  best_first a (b ∷ l) p q n h =
      (ranks_before-Precedes a b p q.0 n.0 h.0, best_first a l p q.1 n.1 h.1)

  falling :
      (l : List FusedCandidate)
      → IsSorted ranks_before l
      → All HasNonneg l
      → AllPairs OtherId l
      → IsFalling l
  falling [] s p n = tt
  falling (a ∷ l) s p n = (best_first a l p.0 p.1 n.0 s.0, falling l s.1 p.1 n.1)

  module _ (k : ℕ) (kw vw : Float) (keyword vector : List Candidate) where
    abbrev fused_from : List Candidate → List FusedCandidate
    fused_from cs = map (fuse k kw vw keyword vector) cs

    fused_unseen :
        (id : Uuid) (cs : List Candidate) (seen : List Uuid)
        → contains seen id ≡ true
        → All (λ b. id ≢ b.candidate.chunk_id) (fused_from (fresh seen cs))
    unfolding fresh fuse
    fused_unseen id [] seen h = tt
    fused_unseen id (d ∷ cs) seen h = elim (Bool-cases (contains seen d.chunk_id)) [
      | inl e ↦ rw (e, fresh) (fused_unseen id cs seen h)
      | inr e ↦
          rw (e, fresh)
            (
              λ p. ground arith,
              fused_unseen id cs (seen ++ d.chunk_id ∷ [])
                  (contains-append seen d.chunk_id id ∙ ground arith),
            )
    ]

    fused-AllPairs :
        (cs : List Candidate) (seen : List Uuid) → AllPairs OtherId (fused_from (fresh seen cs))
    unfolding fresh fuse
    fused-AllPairs [] seen = tt
    fused-AllPairs (d ∷ cs) seen = elim (Bool-cases (contains seen d.chunk_id)) [
      | inl e ↦ rw (e, fresh) (fused-AllPairs cs seen)
      | inr e ↦
          rw (e, fresh)
            (
              fused_unseen d.chunk_id cs (seen ++ d.chunk_id ∷ [])
                  (contains-append seen d.chunk_id d.chunk_id ∙ ground arith),
              fused-AllPairs cs (seen ++ d.chunk_id ∷ []),
            )
    ]

  module _ (k : ℕ) (keyword_weight vector_weight : Float) (nk : Nonneg keyword_weight)
      (nv : Nonneg vector_weight) (keyword vector : List Candidate) where
    fusion-AllPairs : AllPairs OtherId (fusion k keyword_weight vector_weight keyword vector)
    unfolding fusion
    fusion-AllPairs =
        sorted-AllPairs ranks_before OtherId (λ a b n e. n (sym e))
          (items_of k keyword_weight vector_weight nk nv keyword vector)
          (fused-AllPairs k keyword_weight vector_weight keyword vector (keyword ++ vector) [])

    fusion-IsFalling :
        is_policy k keyword_weight vector_weight ≡ true
        → IsFalling (fusion k keyword_weight vector_weight keyword vector)
    fusion-IsFalling policy =
        let (falls, nonneg) =
          fusion-IsSorted k keyword_weight vector_weight nk nv keyword vector policy in
        falling (fusion k keyword_weight vector_weight keyword vector) falls nonneg fusion-AllPairs

    -- In a successful fusion with weights of at least 0 no item scores more than one before it,
    -- of two with one score the smaller identifier stands first, and no score is below 0.
    pub rrf-IsFalling :
        {out : List FusedCandidate}
        → reciprocal_rank_fusion k keyword_weight vector_weight keyword vector ≡ ok out
        → IsFalling out × All HasNonneg out
    rrf-IsFalling h =
        let (policy, _, same) = rrf-eq_ok k keyword_weight vector_weight keyword vector h in
        subst (λ l. IsFalling l × All HasNonneg l) same
          (
            fusion-IsFalling policy,
            (fusion-IsSorted k keyword_weight vector_weight nk nv keyword vector policy).1,
          )

    -- For a positive policy with weights of at least 0, lanes that agree on shared identifiers
    -- and are not too long for the constant plus a rank to convert to a float, the fusion
    -- returns: the first occurrence of each identifier, with its place in either lane and the sum
    -- of the two weights, each divided by the constant plus the place; by falling score, and by
    -- identifier where scores are equal.
    pub rrf-fusion :
        is_policy k keyword_weight vector_weight ≡ true
        → IsConsistent (keyword ++ vector)
        → HasFit k keyword vector
        → (out : List FusedCandidate) × (reciprocal_rank_fusion k keyword_weight vector_weight
              keyword vector
            ≡ ok out)
          × Perm out (
              map
                (fuse k keyword_weight vector_weight keyword vector)
                (fresh [] (keyword ++ vector)))
          × IsFalling out
    rrf-fusion policy consistent fit = (
      fusion k keyword_weight vector_weight keyword vector,
      rrf_returns k keyword_weight vector_weight keyword vector policy consistent fit,
      fusion-perm k keyword_weight vector_weight nk nv keyword vector,
      fusion-IsFalling policy,
    )
