-- ===== src/Search/Service/Total.antt =====
-- When the search of application/search/service.py answers.
use omf_retrieval.Admin.Tokens.{AuthorizedSource}
use omf_retrieval.Prelude.{
  All, All-imp, All-keep, Bool-cases, Exception, List, Result, [], ap, arith, contains, inl, inr,
  keep, list_eq, map, nat_eq, ok, raise, require, search_unavailable, shielded, true, ℕ, ◌++◌, ◌<◌,
  ◌==◌, ◌>>=◌, ◌∙◌, ◌∷◌, ◌≡◌,
}
use omf_retrieval.Prelude.Floats.{Float, Floats}
use omf_retrieval.Prelude.Sort.{sorted-All}
use omf_retrieval.Prelude.Text.{Text, codes}
use omf_retrieval.Search.Evidence.{EvidenceItem}
use omf_retrieval.Search.Evidence.Total.{IsUniform, SameHeading, group_evidence_total}
use omf_retrieval.Search.Policy.{SearchPolicySnapshot}
use omf_retrieval.Search.Ports.{ActiveIndex, Candidate, CandidateBatch, Uuid, active_index_beq_iff}
use omf_retrieval.Search.Rrf.{FusedCandidate, is_policy, ranks_before}
use omf_retrieval.Search.Rrf.Laws.{HasFit, fuse, fusion, rrf_returns}
use omf_retrieval.Search.Rrf.Spec.{IsConsistent, fresh}
use omf_retrieval.Search.Service.{
  SearchPorts, at_level, check_request, fetch, find_active, has_both_ranks, rank_batch,
  resolved_policy, search, search_result,
}
use omf_retrieval.Search.Service.Evidence.{floored_lane}
use omf_retrieval.Search.Service.Laws.{check_request-lem, new_search_result-accepts}

module _ ⦃fl : Floats⦄ where
  abbrev AgreeOn : Candidate → Candidate → Type 0
  AgreeOn a b = a.parent_id ≡ b.parent_id → a.heading_path ≡ b.heading_path

  -- candidates of one parent section agree on its headings
  abbrev pub HasHeadings : List Candidate → Type 0
  HasHeadings cs = All (λ a. All (AgreeOn a) cs) cs

  fresh-All :
      (P : Candidate → Type 0) (seen : List Uuid) (cs : List Candidate)
      → All P cs
      → All P (fresh seen cs)
  unfolding fresh
  fresh-All P seen [] a = tt
  fresh-All P seen (c ∷ cs) a = elim (Bool-cases (contains seen c.chunk_id)) [
    | inl e ↦ rw (e, fresh) (fresh-All P seen cs a.1)
    | inr e ↦ rw (e, fresh) ((a.0, fresh-All P (seen ++ c.chunk_id ∷ []) cs a.1))
  ]

  module _ (k : ℕ) (kw vw : Float) (keyword vector : List Candidate) where
    fuse-All :
        (P : Candidate → Type 0) (cs : List Candidate)
        → All P cs
        → All (λ i. P i.candidate) (map (fuse k kw vw keyword vector) cs)
    unfolding fuse
    fuse-All P [] a = tt
    fuse-All P (c ∷ cs) a = (a.0, fuse-All P cs a.1)

    fusion-All :
        (P : Candidate → Type 0)
        → All P (keyword ++ vector)
        → All (λ i. P i.candidate) (fusion k kw vw keyword vector)
    unfolding fusion
    fusion-All P a =
        let cs = fresh [] (keyword ++ vector) in
        sorted-All ranks_before (λ i. P i.candidate) (map (fuse k kw vw keyword vector) cs)
          (fuse-All P cs (fresh-All P [] (keyword ++ vector) a))

    fusion-IsUniform : HasHeadings (keyword ++ vector) → IsUniform (fusion k kw vw keyword vector)
    fusion-IsUniform h =
        let found = fusion k kw vw keyword vector in
        All-imp (λ i. All (AgreeOn i.candidate) (keyword ++ vector))
          (λ i. All (SameHeading i) found) (λ i a. fusion-All (AgreeOn i.candidate) a) found
          (fusion-All (λ c. All (AgreeOn c) (keyword ++ vector)) h)

  at_level-IsUniform :
      (level : Text) (found : List FusedCandidate)
      → IsUniform found
      → IsUniform (at_level level found)
  unfolding at_level
  at_level-IsUniform level found u = elim (Bool-cases (level == codes "strict")) [
    | inl e ↦
        rw (e, at_level)
          (All-imp (λ a. All (SameHeading a) found)
            (λ a. All (SameHeading a) (keep has_both_ranks found))
            (λ a h. All-keep (SameHeading a) has_both_ranks found h) (keep has_both_ranks found)
            (All-keep (λ a. All (SameHeading a) found) has_both_ranks found u))
    | inr e ↦ rw (e, at_level) u
  ]

  abbrev pub both_lanes : SearchPolicySnapshot → CandidateBatch → List Candidate
  both_lanes policy batch =
      floored_lane batch.keyword policy.keyword_similarity_floor
      ++ floored_lane batch.vector policy.vector_similarity_floor

  -- every rank of the two lanes, added to the policy's constant, converts to a float
  abbrev pub LanesFit : SearchPolicySnapshot → CandidateBatch → Type 0
  LanesFit policy batch =
      HasFit policy.rrf_k (floored_lane batch.keyword policy.keyword_similarity_floor)
        (floored_lane batch.vector policy.vector_similarity_floor)

  rank_batch_total :
      (policy : SearchPolicySnapshot) (level : Text) (limit : ℕ) (batch : CandidateBatch)
      → is_policy policy.rrf_k policy.keyword_weight policy.vector_weight ≡ true
      → 0 < limit
      → IsConsistent (both_lanes policy batch)
      → HasHeadings (both_lanes policy batch)
      → LanesFit policy batch
      → (evidence : List EvidenceItem) × (rank_batch policy level limit batch ≡ ok evidence)
  unfolding rank_batch
  rank_batch_total policy level limit batch positive allowed consistent headings fit =
      let keyword = floored_lane batch.keyword policy.keyword_similarity_floor in
      let vector = floored_lane batch.vector policy.vector_similarity_floor in
      let found = fusion policy.rrf_k policy.keyword_weight policy.vector_weight keyword vector in
      let fused =
        rrf_returns policy.rrf_k policy.keyword_weight policy.vector_weight keyword vector positive
          consistent fit in
      let (evidence, grouped) = group_evidence_total (at_level level found) limit allowed (
        at_level-IsUniform level found (
          fusion-IsUniform policy.rrf_k policy.keyword_weight policy.vector_weight keyword vector
            headings)) in
      (evidence, rw (fused, ◌>>=◌) grouped)

  shielded-ok : {A : Type 0} (e : Exception) (r : Result A) {a : A} → r ≡ ok a → shielded e r ≡ ok a
  unfolding shielded
  shielded-ok e (ok a) h = h
  shielded-ok e (raise x) h = cc

  module _ (ports : SearchPorts) where
    -- A valid request is answered, with the evidence of the fetched batch, when the policy resolves
    -- to one with a positive constant and weights, an index is active, the query can be embedded,
    -- the batch is fetched from that index, its candidates with one identifier are equal, those of
    -- one parent agree on the headings, and the constant plus a rank converts to a float.
    pub search_total :
        (authorized : AuthorizedSource) (query : Text) (limit : ℕ) (level : Text) {q : Text}
        → check_request ports authorized query limit level ≡ ok q
        → {policy : SearchPolicySnapshot} → resolved_policy ports ≡ ok policy
        → is_policy policy.rrf_k policy.keyword_weight policy.vector_weight ≡ true
        → {active : ActiveIndex} → find_active ports authorized policy ≡ ok active
        → {vector : ports.Vector} → ports.embed_query q ≡ ok vector
        → {batch : CandidateBatch} → fetch ports authorized q vector policy ≡ ok batch
        → batch.index ≡ active
        → IsConsistent (both_lanes policy batch)
        → HasHeadings (both_lanes policy batch)
        → LanesFit policy batch
        → (evidence : List EvidenceItem) × (rank_batch policy level limit batch ≡ ok evidence)
          × (search ports authorized query limit level
              ≡ ok (search_result active ports.policy_manifest evidence))
    unfolding search
    search_total authorized query limit level {q} request {policy} resolved positive {active} found
          {vector} embedded {batch} fetched same consistent headings fit =
        let (_, bounds, _) = check_request-lem ports authorized query limit level request in
        let (evidence, ranked) =
          rank_batch_total policy level limit batch positive (omega (arith, bounds.0)) consistent
            headings fit in
        (
          evidence,
          ranked,
          rw (request, ◌>>=◌)
              (rw (resolved, ◌>>=◌)
                (rw (found, ◌>>=◌)
                  (rw (shielded-ok search_unavailable (ports.embed_query q) embedded, ◌>>=◌)
                    (rw (fetched, ◌>>=◌)
                      (rw ((active_index_beq_iff batch.index active).1 same, require, ◌>>=◌)
                        (rw
                          (
                            shielded-ok search_unavailable (rank_batch policy level limit batch)
                                ranked,
                            ◌>>=◌,
                          )
                          (new_search_result-accepts batch.index ports.policy_manifest evidence
                            ∙ ap (λ i. ok (search_result i ports.policy_manifest evidence))
                                same))))))),
        )
