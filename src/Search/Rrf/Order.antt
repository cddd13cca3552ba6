-- ===== src/Search/Rrf/Order.antt =====
-- The order of the fused candidates: by falling score, then by rising identifier
-- (application/search/rrf.py).
use mathlib.Core.List.{Perm}
use mathlib.Core.Path.{subst}
use omf_retrieval.Prelude.{
  All, List, Option, [], arith, false, map, none, ok, some, true, ℕ, ◌++◌, ◌+◌, ◌<◌, ◌∷◌, ◌≡◌,
}
use omf_retrieval.Prelude.Floats.{Float, Floats, Nonneg}
use omf_retrieval.Prelude.Sort.{IsOrder, IsSorted, sorted-All, sorted-IsSorted, sorted-perm}
use omf_retrieval.Search.Ports.{Candidate}
use omf_retrieval.Search.Rrf.{FusedCandidate, is_policy, ranks_before, reciprocal_rank_fusion}
use omf_retrieval.Search.Rrf.Laws.{fuse, fusion, rrf-eq_ok, share}
use omf_retrieval.Search.Rrf.Spec.{fresh, rank_in}

module _ ⦃fl : Floats⦄ where
  abbrev pub HasNonneg : FusedCandidate → Type 0
  HasNonneg i = Nonneg i.score

  ranks_before-asymm :
      (a b : FusedCandidate)
      → HasNonneg a
      → HasNonneg b
      → ranks_before a b ≡ true
      → ranks_before b a ≡ false
  unfolding ranks_before
  ranks_before-asymm a b p q h = ground arith

  ranks_before-negtrans :
      (a b c : FusedCandidate)
      → HasNonneg a
      → HasNonneg b
      → HasNonneg c
      → ranks_before b a ≡ false
      → ranks_before c b ≡ false
      → ranks_before c a ≡ false
  unfolding ranks_before
  ranks_before-negtrans a b c pa pb pc h g = ground (
    arith,
    fl.le_total a.score b.score,
    fl.le_total b.score c.score,
    fl.le_total a.score c.score,
    fl.le_total b.score a.score,
    fl.le_total c.score b.score,
    fl.le_total c.score a.score,
    fl.le_trans a.score b.score c.score,
    fl.le_trans c.score b.score a.score,
    fl.le_trans b.score a.score c.score,
    fl.le_trans b.score c.score a.score,
    fl.le_trans a.score c.score b.score,
    fl.le_trans c.score a.score b.score,
  )

  pub ranks_before-order : IsOrder ranks_before HasNonneg
  ranks_before-order = record { asymm = ranks_before-asymm; negtrans = ranks_before-negtrans }

  -- two items of which neither is before the other have one identifier
  pub ranks_before-tie :
      (a b : FusedCandidate)
      → HasNonneg a
      → HasNonneg b
      → ranks_before a b ≡ false
      → ranks_before b a ≡ false
      → a.candidate.chunk_id ≡ b.candidate.chunk_id
  unfolding ranks_before
  ranks_before-tie a b p q h g =
      ground (arith, fl.le_total a.score b.score, fl.le_total b.score a.score)

  module _ (k : ℕ) (keyword_weight vector_weight : Float) (nk : Nonneg keyword_weight)
      (nv : Nonneg vector_weight) where
    share-Nonneg : (w : Float) (n : ℕ) → Nonneg w → (r : Option ℕ) → 0 < n → Nonneg (share n w r)
    unfolding share
    share-Nonneg w n h none p = fl.zero_nonneg
    share-Nonneg w n h (some r) p = fl.div_nonneg w (n + r) h (omega arith)

    fuse-HasNonneg :
        0 < k
        → (keyword vector cs : List Candidate)
        → All HasNonneg (map (fuse k keyword_weight vector_weight keyword vector) cs)
    unfolding fuse
    fuse-HasNonneg p keyword vector [] = tt
    fuse-HasNonneg p keyword vector (c ∷ cs) = (
      fl.add_nonneg _ _ (share-Nonneg keyword_weight k nk (rank_in keyword c.chunk_id) p)
          (share-Nonneg vector_weight k nv (rank_in vector c.chunk_id) p),
      fuse-HasNonneg p keyword vector cs,
    )

    module _ (keyword vector : List Candidate) where
      abbrev pub items_of : List FusedCandidate
      items_of =
          map (fuse k keyword_weight vector_weight keyword vector) (fresh [] (keyword ++ vector))

      pub fusion-IsSorted :
          is_policy k keyword_weight vector_weight ≡ true
          → IsSorted ranks_before (fusion k keyword_weight vector_weight keyword vector)
            × All HasNonneg (fusion k keyword_weight vector_weight keyword vector)
      unfolding fusion is_policy
      fusion-IsSorted policy =
          let nonneg : All HasNonneg items_of =
            fuse-HasNonneg (ground arith) keyword vector (fresh [] (keyword ++ vector)) in
          (
            sorted-IsSorted ranks_before HasNonneg ranks_before-order items_of nonneg,
            sorted-All ranks_before HasNonneg items_of nonneg,
          )

      pub fusion-perm : Perm (fusion k keyword_weight vector_weight keyword vector) items_of
      unfolding fusion
      fusion-perm = sorted-perm ranks_before items_of

      -- a successful fusion is in the order of its comparison
      pub rrf-IsSorted :
          {out : List FusedCandidate}
          → reciprocal_rank_fusion k keyword_weight vector_weight keyword vector ≡ ok out
          → IsSorted ranks_before out × All HasNonneg out
      rrf-IsSorted h =
          let (policy, _, same) = rrf-eq_ok k keyword_weight vector_weight keyword vector h in
          subst (λ l. IsSorted ranks_before l × All HasNonneg l) same (fusion-IsSorted policy)
