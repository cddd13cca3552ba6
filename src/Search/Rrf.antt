-- ===== src/Search/Rrf.antt =====
-- Reciprocal rank fusion, application/search/rrf.py.
pub mod Spec
pub mod Laws
pub mod Order
pub mod Falling
pub mod Cover
pub mod Places
pub mod Overflow
use omf_retrieval.Prelude.{
  Bool, List, Option, Result, [], if◌then◌else◌, ltb, map, nat_eq, none, not, ok, overflow_error,
  raise, require, some, value_error, ℕ, ◌!=◌, ◌&&◌, ◌+◌, ◌>>=◌, ◌>>◌, ◌∷◌,
}
use omf_retrieval.Prelude.Dict.{Dict, get, put}
use omf_retrieval.Prelude.Floats.{Float, Floats, float_eq, float_lt}
use omf_retrieval.Prelude.Sort.{sorted}
use omf_retrieval.Search.Ports.{Candidate, Uuid, active_index_eq, candidate_eq, origin_eq}

-- `_remember_candidate`
unfoldable pub remember_candidate : Dict Uuid Candidate → Candidate → Result (Dict Uuid Candidate)
unfolding get put
remember_candidate m c = elim (get c.chunk_id m) [
  | none ↦ ok (put c.chunk_id c m)
  | some existing ↦ if existing != c then raise value_error else ok m
]

-- one of the two `for rank, candidate in enumerate(lane, start=1)` loops, at `rank`
unfoldable pub remember_lane :
    ℕ
    → List Candidate
    → Dict Uuid Candidate
    → Dict Uuid ℕ
    → Result (Dict Uuid Candidate × Dict Uuid ℕ)
unfolding remember_candidate
remember_lane rank [] candidates ranks = ok (candidates, ranks)
remember_lane rank (c ∷ lane) candidates ranks = do
  candidates' ← remember_candidate candidates c
  remember_lane (rank + 1) lane candidates' (put c.chunk_id rank ranks)

module _ ⦃fl : Floats⦄ where
  pub record FusedCandidate : Type 0 where
    pub candidate : Candidate
    pub keyword_rank : Option ℕ
    pub vector_rank : Option ℕ
    pub score : Float

  -- `weight / (k + ranks[id]) if id in ranks else 0.0`
  unfoldable pub lane_score : ℕ → Float → Option ℕ → Result Float
  lane_score k weight none = ok fl.zero
  lane_score k weight (some rank) = do
    require (fl.fits (k + rank)) overflow_error
    ok (fl.div weight (k + rank))

  -- the key `(-score, chunk_id.int)` of the sort: an earlier tuple
  unfoldable pub ranks_before : FusedCandidate → FusedCandidate → Bool
  unfolding float_lt float_eq
  ranks_before a b =
      if float_eq a.score b.score
      then ltb a.candidate.chunk_id b.candidate.chunk_id
      else float_lt b.score a.score

  module _ (k : ℕ) (keyword_weight vector_weight : Float) where
    unfoldable pub fuse_item : Dict Uuid ℕ → Dict Uuid ℕ → Uuid × Candidate → Result FusedCandidate
    unfolding lane_score get
    fuse_item keyword_ranks vector_ranks (chunk_id, c) = do
      keyword_score ← lane_score k keyword_weight (get chunk_id keyword_ranks)
      vector_score ← lane_score k vector_weight (get chunk_id vector_ranks)
      ok (record {
        candidate = c;
        keyword_rank = get chunk_id keyword_ranks;
        vector_rank = get chunk_id vector_ranks;
        score = fl.add keyword_score vector_score;
      })

    -- the generator over `candidates.items()`
    unfoldable pub fuse_items :
        Dict Uuid ℕ → Dict Uuid ℕ → Dict Uuid Candidate → Result (List FusedCandidate)
    unfolding fuse_item
    fuse_items keyword_ranks vector_ranks [] = ok []
    fuse_items keyword_ranks vector_ranks (entry ∷ candidates) = do
      item ← fuse_item keyword_ranks vector_ranks entry
      items ← fuse_items keyword_ranks vector_ranks candidates
      ok (item ∷ items)

    -- `k <= 0 or keyword_weight <= 0 or vector_weight <= 0`
    unfoldable pub is_policy : Bool
    is_policy = ltb 0 k && not (fl.le keyword_weight fl.zero) && not (fl.le vector_weight fl.zero)

    unfoldable pub reciprocal_rank_fusion :
        List Candidate → List Candidate → Result (List FusedCandidate)
    unfolding is_policy remember_lane fuse_items sorted ranks_before
    reciprocal_rank_fusion keyword vector = do
      require is_policy value_error
      (candidates, keyword_ranks) ← remember_lane 1 keyword [] []
      (candidates', vector_ranks) ← remember_lane 1 vector candidates []
      fused ← fuse_items keyword_ranks vector_ranks candidates'
      ok (sorted ranks_before fused)
