-- ===== src/Search/Service/Strict.antt =====
-- The strict level of the search of application/search/service.py.
use mathlib.Core.Logic.{∥∥₁_map}
use mathlib.Core.Path.{subst}
use omf_retrieval.Admin.Tokens.{AuthorizedSource}
use omf_retrieval.Prelude.{
  &&-split, All, All-imp, All-keep, All-zip, List, [], is_some, keep, keep-All, map, ok, refl, sym,
  true, ℕ, ◌∷◌, ◌≡◌,
}
use omf_retrieval.Prelude.Floats.{Float, Floats}
use omf_retrieval.Prelude.Sort.{sorted, sorted-All}
use omf_retrieval.Prelude.Text.{Text, codes, strip}
use omf_retrieval.Search.Evidence.{EvidenceItem, EvidenceMatch, to_match}
use omf_retrieval.Search.Evidence.Build.{IsEvidenceOf, group_evidence-lem}
use omf_retrieval.Search.Evidence.Groups.{children, is_child}
use omf_retrieval.Search.Policy.{SearchPolicySnapshot}
use omf_retrieval.Search.Ports.{Candidate, CandidateBatch}
use omf_retrieval.Search.Rrf.{FusedCandidate, ranks_before, reciprocal_rank_fusion}
use omf_retrieval.Search.Rrf.Cover.{rrf_cover}
use omf_retrieval.Search.Rrf.Laws.{rrf-eq_ok}
use omf_retrieval.Search.Rrf.Places.{InBoth, Mem-All, RanksAt, fuse-InBoth}
use omf_retrieval.Search.Service.{
  SearchPorts, SearchResult, at_level, fetch, has_both_ranks, resolved_policy, search,
}
use omf_retrieval.Search.Service.Evidence.{floored_lane, rank_batch-eq_ok}
use omf_retrieval.Search.Service.Laws.{search-IsAnswer}

module _ ⦃fl : Floats⦄ where
  -- one candidate with the text and the lines of the match stands in both lanes, at its two ranks
  pub record InLanes (keyword vector : List Candidate) (m : EvidenceMatch) : Type 0 where
    pub candidate : Candidate
    pub excerpt : m.excerpt ≡ candidate.excerpt
    pub line_start : m.line_start ≡ candidate.line_start
    pub line_end : m.line_end ≡ candidate.line_end
    pub in_keyword : RanksAt keyword m.keyword_rank candidate
    pub in_vector : RanksAt vector m.vector_rank candidate

  abbrev pub FoundByBoth : List Candidate → List Candidate → EvidenceMatch → Type 0
  FoundByBoth keyword vector m = ∥ InLanes keyword vector m ∥₁

  to_match-InLanes :
      (keyword vector : List Candidate) (i : FusedCandidate)
      → InBoth keyword vector i
      → InLanes keyword vector (to_match i)
  unfolding to_match
  to_match-InLanes keyword vector i (p, q) = record {
    candidate = i.candidate;
    excerpt = refl;
    line_start = refl;
    line_end = refl;
    in_keyword = p;
    in_vector = q;
  }

  map-All :
      (P : FusedCandidate → Type 0) (Q : EvidenceMatch → Type 0)
      → ((i : FusedCandidate) → P i → Q (to_match i))
      → (items : List FusedCandidate) → All P items
      → All Q (map to_match items)
  map-All P Q f [] a = tt
  map-All P Q f (i ∷ items) a = (f i a.0, map-All P Q f items a.1)

  evidence-All :
      (P : FusedCandidate → Type 0) (Q : EvidenceMatch → Type 0)
      → ((i : FusedCandidate) → P i → Q (to_match i))
      → (found : List FusedCandidate) → All P found
      → (out : List EvidenceItem) → All (IsEvidenceOf found) out
      → All (λ e. All Q e.matches) out
  evidence-All P Q f found a [] r = tt
  evidence-All P Q f found a (e ∷ out) r = (
    subst (All Q) (sym r.0.matches) (
        map-All P Q f (sorted ranks_before (children e.parent_id found)) (
          sorted-All ranks_before P (children e.parent_id found)
            (All-keep P (is_child e.parent_id) found a))),
    evidence-All P Q f found a out r.1,
  )

  module _ (k : ℕ) (kw vw : Float) (keyword vector : List Candidate) where
    abbrev BothInLanes : FusedCandidate → Type 0
    BothInLanes i = has_both_ranks i ≡ true → ∥ InBoth keyword vector i ∥₁

    fused-InBoth :
        (fused : List FusedCandidate)
        → reciprocal_rank_fusion k kw vw keyword vector ≡ ok fused
        → All BothInLanes fused
    unfolding has_both_ranks
    fused-InBoth fused h =
        let (_, consistent, _) = rrf-eq_ok k kw vw keyword vector h in
        let (_, known, _) = rrf_cover k kw vw keyword vector h in
        Mem-All BothInLanes fused (λ i m both.
          let (p, q) = &&-split (is_some i.keyword_rank) (is_some i.vector_rank) both in
          ∥∥₁_map (known i m)
            (λ (c, n, e). fuse-InBoth keyword vector k kw vw consistent c n i e p q))

    strict-InBoth :
        (fused : List FusedCandidate)
        → All BothInLanes fused
        → All (λ i. ∥ InBoth keyword vector i ∥₁) (at_level (codes "strict") fused)
    unfolding at_level
    strict-InBoth fused a =
        let kept = keep has_both_ranks fused in
        All-imp (λ i. BothInLanes i × (has_both_ranks i ≡ true)) (λ i. ∥ InBoth keyword vector i ∥₁)
          (λ i (f, both). f both) kept
          (All-zip BothInLanes (λ i. has_both_ranks i ≡ true) kept
            (All-keep BothInLanes has_both_ranks fused a) (keep-All has_both_ranks fused))

  -- the lanes of a fetched batch, and what both found
  pub record StrictAnswer (ports : SearchPorts) (authorized : AuthorizedSource) (query : Text)
      (r : SearchResult) : Type 0 where
    pub policy : SearchPolicySnapshot
    pub vector : ports.Vector
    pub batch : CandidateBatch
    pub resolved : resolved_policy ports ≡ ok policy
    pub embedded : ports.embed_query (strip query) ≡ ok vector
    pub fetched : fetch ports authorized (strip query) vector policy ≡ ok batch
    pub found :
        All
          (λ e.
            All
              (FoundByBoth
                (floored_lane batch.keyword policy.keyword_similarity_floor)
                (floored_lane batch.vector policy.vector_similarity_floor))
              e.matches)
          r.evidence_items

  -- Every match of a strict answer has one candidate with its text and lines in both lanes of the
  -- fetched batch, above their floors: its two ranks are the candidate's places there, from 1.
  pub search_strict :
      (ports : SearchPorts) (authorized : AuthorizedSource) (query : Text) (limit : ℕ)
      {r : SearchResult}
      → search ports authorized query limit (codes "strict") ≡ ok r
      → StrictAnswer ports authorized query r
  search_strict ports authorized query limit {r} h =
      let a = search-IsAnswer ports authorized query limit (codes "strict") h in
      let (fused, ranked, grouped) =
        rank_batch-eq_ok a.policy (codes "strict") limit a.batch a.ranked in
      let keyword = floored_lane a.batch.keyword a.policy.keyword_similarity_floor in
      let vector = floored_lane a.batch.vector a.policy.vector_similarity_floor in
      let both =
        fused-InBoth a.policy.rrf_k a.policy.keyword_weight a.policy.vector_weight keyword vector
          fused ranked in
      record {
        policy = a.policy;
        vector = a.vector;
        batch = a.batch;
        resolved = a.resolved;
        embedded = a.embedded;
        fetched = a.fetched;
        found =
            evidence-All (λ i. ∥ InBoth keyword vector i ∥₁) (FoundByBoth keyword vector)
              (λ i p. ∥∥₁_map p (λ b. to_match-InLanes keyword vector i b))
              (at_level (codes "strict") fused)
              (strict-InBoth a.policy.rrf_k a.policy.keyword_weight a.policy.vector_weight keyword
                vector fused both)
              r.evidence_items
              (group_evidence-lem (at_level (codes "strict") fused) limit grouped).0;
      }
