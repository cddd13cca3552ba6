-- ===== src/Search/Service/Evidence.antt =====
-- The evidence of an answer of application/search/service.py: what the fusion and the grouping
-- guarantee, seen from the service.
use omf_retrieval.Admin.Tokens.{AuthorizedSource}
use omf_retrieval.Prelude.{>>=-eq_ok, List, Result, length, ok, ℕ, ◌≡◌, ◌≤◌}
use omf_retrieval.Prelude.Dict.{IsDistinct}
use omf_retrieval.Prelude.Floats.{Float, Floats}
use omf_retrieval.Prelude.Text.{Text}
use omf_retrieval.Search.Evidence.{EvidenceItem, group_evidence}
use omf_retrieval.Search.Evidence.Build.{RankedFrom, group_evidence-lem, parents}
use omf_retrieval.Search.Policy.{SearchPolicySnapshot, retain_at_or_above}
use omf_retrieval.Search.Ports.{Candidate, CandidateBatch, ScoredCandidate, candidates_of}
use omf_retrieval.Search.Rrf.{FusedCandidate, reciprocal_rank_fusion}
use omf_retrieval.Search.Service.{SearchPorts, SearchResult, at_level, rank_batch, search}
use omf_retrieval.Search.Service.Laws.{check_request-lem, search-IsAnswer}

module _ ⦃fl : Floats⦄ where
  -- the candidates of a lane that reach its floor
  abbrev pub floored_lane : List ScoredCandidate → Float → List Candidate
  floored_lane scored floor = candidates_of (retain_at_or_above scored floor)

  abbrev pub fused_under : SearchPolicySnapshot → CandidateBatch → Result (List FusedCandidate)
  fused_under policy batch =
      reciprocal_rank_fusion policy.rrf_k policy.keyword_weight policy.vector_weight
        (floored_lane batch.keyword policy.keyword_similarity_floor)
        (floored_lane batch.vector policy.vector_similarity_floor)

  pub rank_batch-eq_ok :
      (policy : SearchPolicySnapshot) (level : Text) (limit : ℕ) (batch : CandidateBatch)
      {evidence : List EvidenceItem}
      → rank_batch policy level limit batch ≡ ok evidence
      → (fused : List FusedCandidate) × (fused_under policy batch ≡ ok fused)
        × (group_evidence (at_level level fused) limit ≡ ok evidence)
  unfolding rank_batch
  rank_batch-eq_ok policy level limit batch h = >>=-eq_ok (fused_under policy batch) _ h

  module _ (ports : SearchPorts) where
    -- An answer has at most `limit` items, which is at most the configured maximum; they are ranked
    -- 1, 2, …, and no parent section stands twice.
    pub search_bounds :
        (authorized : AuthorizedSource) (query : Text) (limit : ℕ) (level : Text) {r : SearchResult}
        → search ports authorized query limit level ≡ ok r
        → (length r.evidence_items ≤ limit)
          × (limit ≤ ports.search_max_limit)
          × RankedFrom 1 r.evidence_items
          × IsDistinct (parents r.evidence_items)
    search_bounds authorized query limit level {r} h =
        let a = search-IsAnswer ports authorized query limit level h in
        let (fused, _, grouped) = rank_batch-eq_ok a.policy level limit a.batch a.ranked in
        let (_, ranked, apart, short) = group_evidence-lem (at_level level fused) limit grouped in
        let (_, bounds, _) = check_request-lem ports authorized query limit level a.request in
        (short, bounds.1, ranked, apart)
